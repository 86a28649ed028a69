-- ===== src/Mime/FromI.antt =====
-- Lines 125 to 244 of lib/mime_types.hpp: entries of `mime_map`.
use httplib.Base.{List, [], ◌∷◌, Text, codes}

abbrev pub from_i : List (Text × Text)
from_i =
    (codes ".ice", codes "x-conference/x-cooltalk")
    ∷ (codes ".ico", codes "image/x-icon")
    ∷ (codes ".ief", codes "image/ief")
    ∷ (codes ".ifm", codes "image/gif")
    ∷ (codes ".ifs", codes "image/ifs")
    ∷ (codes ".iii", codes "application/x-iphone")
    ∷ (codes ".imy", codes "audio/melody")
    ∷ (codes ".ins", codes "application/x-internet-signup")
    ∷ (codes ".ips", codes "application/x-ipscript")
    ∷ (codes ".ipx", codes "application/x-ipix")
    ∷ (codes ".isp", codes "application/x-internet-signup")
    ∷ (codes ".it", codes "audio/x-mod")
    ∷ (codes ".itz", codes "audio/x-mod")
    ∷ (codes ".ivr", codes "i-world/i-vrml")
    ∷ (codes ".j2k", codes "image/j2k")
    ∷ (codes ".jad", codes "text/vnd.sun.j2me.app-descriptor")
    ∷ (codes ".jam", codes "application/x-jam")
    ∷ (codes ".jar", codes "application/java-archive")
    ∷ (codes ".java", codes "text/plain")
    ∷ (codes ".jfif", codes "image/pipeg")
    ∷ (codes ".jnlp", codes "application/x-java-jnlp-file")
    ∷ (codes ".jpe", codes "image/jpeg")
    ∷ (codes ".jpeg", codes "image/jpeg")
    ∷ (codes ".jpg", codes "image/jpeg")
    ∷ (codes ".jpz", codes "image/jpeg")
    ∷ (codes ".js", codes "application/x-javascript")
    ∷ (codes ".jwc", codes "application/jwc")
    ∷ (codes ".kjx", codes "application/x-kjx")
    ∷ (codes ".lak", codes "x-lml/x-lak")
    ∷ (codes ".latex", codes "application/x-latex")
    ∷ (codes ".lcc", codes "application/fastman")
    ∷ (codes ".lcl", codes "application/x-digitalloca")
    ∷ (codes ".lcr", codes "application/x-digitalloca")
    ∷ (codes ".lgh", codes "application/lgh")
    ∷ (codes ".lha", codes "application/octet-stream")
    ∷ (codes ".lml", codes "x-lml/x-lml")
    ∷ (codes ".lmlpack", codes "x-lml/x-lmlpack")
    ∷ (codes ".log", codes "text/plain")
    ∷ (codes ".lsf", codes "video/x-la-asf")
    ∷ (codes ".lsx", codes "video/x-la-asf")
    ∷ (codes ".lzh", codes "application/octet-stream")
    ∷ (codes ".m13", codes "application/x-msmediaview")
    ∷ (codes ".m14", codes "application/x-msmediaview")
    ∷ (codes ".m15", codes "audio/x-mod")
    ∷ (codes ".m3u", codes "audio/x-mpegurl")
    ∷ (codes ".m3url", codes "audio/x-mpegurl")
    ∷ (codes ".m4a", codes "audio/mp4a-latm")
    ∷ (codes ".m4b", codes "audio/mp4a-latm")
    ∷ (codes ".m4p", codes "audio/mp4a-latm")
    ∷ (codes ".m4u", codes "video/vnd.mpegurl")
    ∷ (codes ".m4v", codes "video/x-m4v")
    ∷ (codes ".ma1", codes "audio/ma1")
    ∷ (codes ".ma2", codes "audio/ma2")
    ∷ (codes ".ma3", codes "audio/ma3")
    ∷ (codes ".ma5", codes "audio/ma5")
    ∷ (codes ".man", codes "application/x-troff-man")
    ∷ (codes ".map", codes "magnus-internal/imagemap")
    ∷ (codes ".mbd", codes "application/mbedlet")
    ∷ (codes ".mct", codes "application/x-mascot")
    ∷ (codes ".mdb", codes "application/x-msaccess")
    ∷ (codes ".mdz", codes "audio/x-mod")
    ∷ (codes ".me", codes "application/x-troff-me")
    ∷ (codes ".mel", codes "text/x-vmel")
    ∷ (codes ".mht", codes "message/rfc822")
    ∷ (codes ".mhtml", codes "message/rfc822")
    ∷ (codes ".mi", codes "application/x-mif")
    ∷ (codes ".mid", codes "audio/mid")
    ∷ (codes ".midi", codes "audio/midi")
    ∷ (codes ".mif", codes "application/x-mif")
    ∷ (codes ".mil", codes "image/x-cals")
    ∷ (codes ".mio", codes "audio/x-mio")
    ∷ (codes ".mmf", codes "application/x-skt-lbs")
    ∷ (codes ".mng", codes "video/x-mng")
    ∷ (codes ".mny", codes "application/x-msmoney")
    ∷ (codes ".moc", codes "application/x-mocha")
    ∷ (codes ".mocha", codes "application/x-mocha")
    ∷ (codes ".mod", codes "audio/x-mod")
    ∷ (codes ".mof", codes "application/x-yumekara")
    ∷ (codes ".mol", codes "chemical/x-mdl-molfile")
    ∷ (codes ".mop", codes "chemical/x-mopac-input")
    ∷ (codes ".mov", codes "video/quicktime")
    ∷ (codes ".movie", codes "video/x-sgi-movie")
    ∷ (codes ".mp2", codes "video/mpeg")
    ∷ (codes ".mp3", codes "audio/mpeg")
    ∷ (codes ".mp4", codes "video/mp4")
    ∷ (codes ".mpa", codes "video/mpeg")
    ∷ (codes ".mpc", codes "application/vnd.mpohun.certificate")
    ∷ (codes ".mpe", codes "video/mpeg")
    ∷ (codes ".mpeg", codes "video/mpeg")
    ∷ (codes ".mpg", codes "video/mpeg")
    ∷ (codes ".mpg4", codes "video/mp4")
    ∷ (codes ".mpga", codes "audio/mpeg")
    ∷ (codes ".mpn", codes "application/vnd.mophun.application")
    ∷ (codes ".mpp", codes "application/vnd.ms-project")
    ∷ (codes ".mps", codes "application/x-mapserver")
    ∷ (codes ".mpv2", codes "video/mpeg")
    ∷ (codes ".mrl", codes "text/x-mrml")
    ∷ (codes ".mrm", codes "application/x-mrm")
    ∷ (codes ".ms", codes "application/x-troff-ms")
    ∷ (codes ".msg", codes "application/vnd.ms-outlook")
    ∷ (codes ".mts", codes "application/metastream")
    ∷ (codes ".mtx", codes "application/metastream")
    ∷ (codes ".mtz", codes "application/metastream")
    ∷ (codes ".mvb", codes "application/x-msmediaview")
    ∷ (codes ".mzv", codes "application/metastream")
    ∷ (codes ".nar", codes "application/zip")
    ∷ (codes ".nbmp", codes "image/nbmp")
    ∷ (codes ".nc", codes "application/x-netcdf")
    ∷ (codes ".ndb", codes "x-lml/x-ndb")
    ∷ (codes ".ndwn", codes "application/ndwn")
    ∷ (codes ".nif", codes "application/x-nif")
    ∷ (codes ".nmz", codes "application/x-scream")
    ∷ (codes ".nokia-op-logo", codes "image/vnd.nok-oplogo-color")
    ∷ (codes ".npx", codes "application/x-netfpx")
    ∷ (codes ".nsnd", codes "audio/nsnd")
    ∷ (codes ".nva", codes "application/x-neva1")
    ∷ (codes ".nws", codes "message/rfc822")
    ∷ (codes ".oda", codes "application/oda")
    ∷ (codes ".ogg", codes "audio/ogg")
    ∷ (codes ".oom", codes "application/x-AtlasMate-Plugin")
    ∷ []
