-- ===== src/Mime/FromP.antt =====
-- Lines 245 to 373 of lib/mime_types.hpp: entries of `mime_map`.
use httplib.Base.{List, [], ◌∷◌, Text, codes}

abbrev pub from_p : List (Text × Text)
from_p =
    (codes ".p10", codes "application/pkcs10")
    ∷ (codes ".p12", codes "application/x-pkcs12")
    ∷ (codes ".p7b", codes "application/x-pkcs7-certificates")
    ∷ (codes ".p7c", codes "application/x-pkcs7-mime")
    ∷ (codes ".p7m", codes "application/x-pkcs7-mime")
    ∷ (codes ".p7r", codes "application/x-pkcs7-certreqresp")
    ∷ (codes ".p7s", codes "application/x-pkcs7-signature")
    ∷ (codes ".pac", codes "audio/x-pac")
    ∷ (codes ".pae", codes "audio/x-epac")
    ∷ (codes ".pan", codes "application/x-pan")
    ∷ (codes ".pbm", codes "image/x-portable-bitmap")
    ∷ (codes ".pcx", codes "image/x-pcx")
    ∷ (codes ".pda", codes "image/x-pda")
    ∷ (codes ".pdb", codes "chemical/x-pdb")
    ∷ (codes ".pdf", codes "application/pdf")
    ∷ (codes ".pfr", codes "application/font-tdpfr")
    ∷ (codes ".pfx", codes "application/x-pkcs12")
    ∷ (codes ".pgm", codes "image/x-portable-graymap")
    ∷ (codes ".pict", codes "image/x-pict")
    ∷ (codes ".pko", codes "application/ynd.ms-pkipko")
    ∷ (codes ".pm", codes "application/x-perl")
    ∷ (codes ".pma", codes "application/x-perfmon")
    ∷ (codes ".pmc", codes "application/x-perfmon")
    ∷ (codes ".pmd", codes "application/x-pmd")
    ∷ (codes ".pml", codes "application/x-perfmon")
    ∷ (codes ".pmr", codes "application/x-perfmon")
    ∷ (codes ".pmw", codes "application/x-perfmon")
    ∷ (codes ".png", codes "image/png")
    ∷ (codes ".pnm", codes "image/x-portable-anymap")
    ∷ (codes ".pnz", codes "image/png")
    ∷ (codes ".pot,", codes "application/vnd.ms-powerpoint")
    ∷ (codes ".ppm", codes "image/x-portable-pixmap")
    ∷ (codes ".pps", codes "application/vnd.ms-powerpoint")
    ∷ (codes ".ppt", codes "application/vnd.ms-powerpoint")
    ∷ (codes ".pqf", codes "application/x-cprplayer")
    ∷ (codes ".pqi", codes "application/cprplayer")
    ∷ (codes ".prc", codes "application/x-prc")
    ∷ (codes ".prf", codes "application/pics-rules")
    ∷ (codes ".prop", codes "text/plain")
    ∷ (codes ".proxy", codes "application/x-ns-proxy-autoconfig")
    ∷ (codes ".ps", codes "application/postscript")
    ∷ (codes ".ptlk", codes "application/listenup")
    ∷ (codes ".pub", codes "application/x-mspublisher")
    ∷ (codes ".pvx", codes "video/x-pv-pvx")
    ∷ (codes ".qcp", codes "audio/vnd.qcelp")
    ∷ (codes ".qt", codes "video/quicktime")
    ∷ (codes ".qti", codes "image/x-quicktime")
    ∷ (codes ".qtif", codes "image/x-quicktime")
    ∷ (codes ".r3t", codes "text/vnd.rn-realtext3d")
    ∷ (codes ".ra", codes "audio/x-pn-realaudio")
    ∷ (codes ".ram", codes "audio/x-pn-realaudio")
    ∷ (codes ".rar", codes "application/octet-stream")
    ∷ (codes ".ras", codes "image/x-cmu-raster")
    ∷ (codes ".rc", codes "text/plain")
    ∷ (codes ".rdf", codes "application/rdf+xml")
    ∷ (codes ".rf", codes "image/vnd.rn-realflash")
    ∷ (codes ".rgb", codes "image/x-rgb")
    ∷ (codes ".rlf", codes "application/x-richlink")
    ∷ (codes ".rm", codes "audio/x-pn-realaudio")
    ∷ (codes ".rmf", codes "audio/x-rmf")
    ∷ (codes ".rmi", codes "audio/mid")
    ∷ (codes ".rmm", codes "audio/x-pn-realaudio")
    ∷ (codes ".rmvb", codes "audio/x-pn-realaudio")
    ∷ (codes ".rnx", codes "application/vnd.rn-realplayer")
    ∷ (codes ".roff", codes "application/x-troff")
    ∷ (codes ".rp", codes "image/vnd.rn-realpix")
    ∷ (codes ".rpm", codes "audio/x-pn-realaudio-plugin")
    ∷ (codes ".rt", codes "text/vnd.rn-realtext")
    ∷ (codes ".rte", codes "x-lml/x-gps")
    ∷ (codes ".rtf", codes "application/rtf")
    ∷ (codes ".rtg", codes "application/metastream")
    ∷ (codes ".rtx", codes "text/richtext")
    ∷ (codes ".rv", codes "video/vnd.rn-realvideo")
    ∷ (codes ".rwc", codes "application/x-rogerwilco")
    ∷ (codes ".s3m", codes "audio/x-mod")
    ∷ (codes ".s3z", codes "audio/x-mod")
    ∷ (codes ".sca", codes "application/x-supercard")
    ∷ (codes ".scd", codes "application/x-msschedule")
    ∷ (codes ".sct", codes "text/scriptlet")
    ∷ (codes ".sdf", codes "application/e-score")
    ∷ (codes ".sea", codes "application/x-stuffit")
    ∷ (codes ".setpay", codes "application/set-payment-initiation")
    ∷ (codes ".setreg", codes "application/set-registration-initiation")
    ∷ (codes ".sgm", codes "text/x-sgml")
    ∷ (codes ".sgml", codes "text/x-sgml")
    ∷ (codes ".sh", codes "application/x-sh")
    ∷ (codes ".shar", codes "application/x-shar")
    ∷ (codes ".shtml", codes "magnus-internal/parsed-html")
    ∷ (codes ".shw", codes "application/presentations")
    ∷ (codes ".si6", codes "image/si6")
    ∷ (codes ".si7", codes "image/vnd.stiwap.sis")
    ∷ (codes ".si9", codes "image/vnd.lgtwap.sis")
    ∷ (codes ".sis", codes "application/vnd.symbian.install")
    ∷ (codes ".sit", codes "application/x-stuffit")
    ∷ (codes ".skd", codes "application/x-Koan")
    ∷ (codes ".skm", codes "application/x-Koan")
    ∷ (codes ".skp", codes "application/x-Koan")
    ∷ (codes ".skt", codes "application/x-Koan")
    ∷ (codes ".slc", codes "application/x-salsa")
    ∷ (codes ".smd", codes "audio/x-smd")
    ∷ (codes ".smi", codes "application/smil")
    ∷ (codes ".smil", codes "application/smil")
    ∷ (codes ".smp", codes "application/studiom")
    ∷ (codes ".smz", codes "audio/x-smd")
    ∷ (codes ".snd", codes "audio/basic")
    ∷ (codes ".spc", codes "application/x-pkcs7-certificates")
    ∷ (codes ".spl", codes "application/futuresplash")
    ∷ (codes ".spr", codes "application/x-sprite")
    ∷ (codes ".sprite", codes "application/x-sprite")
    ∷ (codes ".sdp", codes "application/sdp")
    ∷ (codes ".spt", codes "application/x-spt")
    ∷ (codes ".src", codes "application/x-wais-source")
    ∷ (codes ".sst", codes "application/vnd.ms-pkicertstore")
    ∷ (codes ".stk", codes "application/hyperstudio")
    ∷ (codes ".stl", codes "application/vnd.ms-pkistl")
    ∷ (codes ".stm", codes "text/html")
    ∷ (codes ".svg", codes "image/svg+xml")
    ∷ (codes ".sv4cpio", codes "application/x-sv4cpio")
    ∷ (codes ".sv4crc", codes "application/x-sv4crc")
    ∷ (codes ".svf", codes "image/vnd")
    ∷ (codes ".eot", codes "application/vnd.ms-fontobject")
    ∷ (codes ".woff", codes "application/font-woff")
    ∷ (codes ".svh", codes "image/svh")
    ∷ (codes ".svr", codes "x-world/x-svr")
    ∷ (codes ".swf", codes "application/x-shockwave-flash")
    ∷ (codes ".swfl", codes "application/x-shockwave-flash")
    ∷ []
