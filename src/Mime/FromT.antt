-- ===== src/Mime/FromT.antt =====
-- Lines 374 to 494 of lib/mime_types.hpp: entries of `mime_map`.
use httplib.Base.{List, [], ◌∷◌, Text, codes}

abbrev pub from_t : List (Text × Text)
from_t =
    (codes ".t", codes "application/x-troff")
    ∷ (codes ".tad", codes "application/octet-stream")
    ∷ (codes ".talk", codes "text/x-speech")
    ∷ (codes ".tar", codes "application/x-tar")
    ∷ (codes ".taz", codes "application/x-tar")
    ∷ (codes ".tbp", codes "application/x-timbuktu")
    ∷ (codes ".tbt", codes "application/x-timbuktu")
    ∷ (codes ".tcl", codes "application/x-tcl")
    ∷ (codes ".tex", codes "application/x-tex")
    ∷ (codes ".texi", codes "application/x-texinfo")
    ∷ (codes ".texinfo", codes "application/x-texinfo")
    ∷ (codes ".tgz", codes "application/x-compressed")
    ∷ (codes ".thm", codes "application/vnd.eri.thm")
    ∷ (codes ".tif", codes "image/tiff")
    ∷ (codes ".tiff", codes "image/tiff")
    ∷ (codes ".tki", codes "application/x-tkined")
    ∷ (codes ".tkined", codes "application/x-tkined")
    ∷ (codes ".toc", codes "application/toc")
    ∷ (codes ".toy", codes "image/toy")
    ∷ (codes ".tr", codes "application/x-troff")
    ∷ (codes ".trk", codes "x-lml/x-gps")
    ∷ (codes ".trm", codes "application/x-msterminal")
    ∷ (codes ".tsi", codes "audio/tsplayer")
    ∷ (codes ".tsp", codes "application/dsptype")
    ∷ (codes ".tsv", codes "text/tab-separated-values")
    ∷ (codes ".ttf", codes "application/octet-stream")
    ∷ (codes ".ttz", codes "application/t-time")
    ∷ (codes ".txt", codes "text/plain")
    ∷ (codes ".uls", codes "text/iuls")
    ∷ (codes ".ult", codes "audio/x-mod")
    ∷ (codes ".ustar", codes "application/x-ustar")
    ∷ (codes ".uu", codes "application/x-uuencode")
    ∷ (codes ".uue", codes "application/x-uuencode")
    ∷ (codes ".vcd", codes "application/x-cdlink")
    ∷ (codes ".vcf", codes "text/x-vcard")
    ∷ (codes ".vdo", codes "video/vdo")
    ∷ (codes ".vib", codes "audio/vib")
    ∷ (codes ".viv", codes "video/vivo")
    ∷ (codes ".vivo", codes "video/vivo")
    ∷ (codes ".vmd", codes "application/vocaltec-media-desc")
    ∷ (codes ".vmf", codes "application/vocaltec-media-file")
    ∷ (codes ".vmi", codes "application/x-dreamcast-vms-info")
    ∷ (codes ".vms", codes "application/x-dreamcast-vms")
    ∷ (codes ".vox", codes "audio/voxware")
    ∷ (codes ".vqe", codes "audio/x-twinvq-plugin")
    ∷ (codes ".vqf", codes "audio/x-twinvq")
    ∷ (codes ".vql", codes "audio/x-twinvq")
    ∷ (codes ".vre", codes "x-world/x-vream")
    ∷ (codes ".vrml", codes "x-world/x-vrml")
    ∷ (codes ".vrt", codes "x-world/x-vrt")
    ∷ (codes ".vrw", codes "x-world/x-vream")
    ∷ (codes ".vts", codes "workbook/formulaone")
    ∷ (codes ".wav", codes "audio/x-wav")
    ∷ (codes ".wax", codes "audio/x-ms-wax")
    ∷ (codes ".wbmp", codes "image/vnd.wap.wbmp")
    ∷ (codes ".wcm", codes "application/vnd.ms-works")
    ∷ (codes ".wdb", codes "application/vnd.ms-works")
    ∷ (codes ".web", codes "application/vnd.xara")
    ∷ (codes ".wi", codes "image/wavelet")
    ∷ (codes ".wis", codes "application/x-InstallShield")
    ∷ (codes ".wks", codes "application/vnd.ms-works")
    ∷ (codes ".wm", codes "video/x-ms-wm")
    ∷ (codes ".wma", codes "audio/x-ms-wma")
    ∷ (codes ".wmd", codes "application/x-ms-wmd")
    ∷ (codes ".wmf", codes "application/x-msmetafile")
    ∷ (codes ".wml", codes "text/vnd.wap.wml")
    ∷ (codes ".wmlc", codes "application/vnd.wap.wmlc")
    ∷ (codes ".wmls", codes "text/vnd.wap.wmlscript")
    ∷ (codes ".wmlsc", codes "application/vnd.wap.wmlscriptc")
    ∷ (codes ".wmlscript", codes "text/vnd.wap.wmlscript")
    ∷ (codes ".wmv", codes "audio/x-ms-wmv")
    ∷ (codes ".wmx", codes "video/x-ms-wmx")
    ∷ (codes ".wmz", codes "application/x-ms-wmz")
    ∷ (codes ".wpng", codes "image/x-up-wpng")
    ∷ (codes ".wps", codes "application/vnd.ms-works")
    ∷ (codes ".wpt", codes "x-lml/x-gps")
    ∷ (codes ".wri", codes "application/x-mswrite")
    ∷ (codes ".wrl", codes "x-world/x-vrml")
    ∷ (codes ".wrz", codes "x-world/x-vrml")
    ∷ (codes ".ws", codes "text/vnd.wap.wmlscript")
    ∷ (codes ".wsc", codes "application/vnd.wap.wmlscriptc")
    ∷ (codes ".wv", codes "video/wavelet")
    ∷ (codes ".wvx", codes "video/x-ms-wvx")
    ∷ (codes ".wxl", codes "application/x-wxl")
    ∷ (codes ".x-gzip", codes "application/x-gzip")
    ∷ (codes ".xaf", codes "x-world/x-vrml")
    ∷ (codes ".xar", codes "application/vnd.xara")
    ∷ (codes ".xbm", codes "image/x-xbitmap")
    ∷ (codes ".xdm", codes "application/x-xdma")
    ∷ (codes ".xdma", codes "application/x-xdma")
    ∷ (codes ".xdw", codes "application/vnd.fujixerox.docuworks")
    ∷ (codes ".xht", codes "application/xhtml+xml")
    ∷ (codes ".xhtm", codes "application/xhtml+xml")
    ∷ (codes ".xhtml", codes "application/xhtml+xml")
    ∷ (codes ".xla", codes "application/vnd.ms-excel")
    ∷ (codes ".xlc", codes "application/vnd.ms-excel")
    ∷ (codes ".xll", codes "application/x-excel")
    ∷ (codes ".xlm", codes "application/vnd.ms-excel")
    ∷ (codes ".xls", codes "application/vnd.ms-excel")
    ∷ (codes ".xlsx", codes "application/vnd.openxmlformats-officedocument.spreadsheetml.sheet")
    ∷ (codes ".xlt", codes "application/vnd.ms-excel")
    ∷ (codes ".xlw", codes "application/vnd.ms-excel")
    ∷ (codes ".xm", codes "audio/x-mod")
    ∷ (codes ".xml", codes "text/plain")
    ∷ (codes ".xml", codes "application/xml")
    ∷ (codes ".xmz", codes "audio/x-mod")
    ∷ (codes ".xof", codes "x-world/x-vrml")
    ∷ (codes ".xpi", codes "application/x-xpinstall")
    ∷ (codes ".xpm", codes "image/x-xpixmap")
    ∷ (codes ".xsit", codes "text/xml")
    ∷ (codes ".xsl", codes "text/xml")
    ∷ (codes ".xul", codes "text/xul")
    ∷ (codes ".xwd", codes "image/x-xwindowdump")
    ∷ (codes ".xyz", codes "chemical/x-pdb")
    ∷ (codes ".yz1", codes "application/x-yz1")
    ∷ (codes ".z", codes "application/x-compress")
    ∷ (codes ".zac", codes "application/x-zaurus-zac")
    ∷ (codes ".zip", codes "application/zip")
    ∷ (codes ".json", codes "application/json")
    ∷ (codes ".7z", codes "application/x-7z-compressed")
    ∷ (codes ".wasm", codes "application/wasm")
    ∷ []
