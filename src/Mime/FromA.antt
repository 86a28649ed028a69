-- ===== src/Mime/FromA.antt =====
-- Lines 7 to 124 of lib/mime_types.hpp: entries of `mime_map`.
use httplib.Base.{List, [], ◌∷◌, Text, codes}

abbrev pub from_a : List (Text × Text)
from_a =
    (codes ".323", codes "text/h323")
    ∷ (codes ".3gp", codes "video/3gpp")
    ∷ (codes ".aab", codes "application/x-authoware-bin")
    ∷ (codes ".aam", codes "application/x-authoware-map")
    ∷ (codes ".aas", codes "application/x-authoware-seg")
    ∷ (codes ".acx", codes "application/internet-property-stream")
    ∷ (codes ".ai", codes "application/postscript")
    ∷ (codes ".aif", codes "audio/x-aiff")
    ∷ (codes ".aifc", codes "audio/x-aiff")
    ∷ (codes ".aiff", codes "audio/x-aiff")
    ∷ (codes ".als", codes "audio/X-Alpha5")
    ∷ (codes ".amc", codes "application/x-mpeg")
    ∷ (codes ".ani", codes "application/octet-stream")
    ∷ (codes ".apk", codes "application/vnd.android.package-archive")
    ∷ (codes ".asc", codes "text/plain")
    ∷ (codes ".asd", codes "application/astound")
    ∷ (codes ".asf", codes "video/x-ms-asf")
    ∷ (codes ".asn", codes "application/astound")
    ∷ (codes ".asp", codes "application/x-asap")
    ∷ (codes ".asr", codes "video/x-ms-asf")
    ∷ (codes ".asx", codes "video/x-ms-asf")
    ∷ (codes ".au", codes "audio/basic")
    ∷ (codes ".avb", codes "application/octet-stream")
    ∷ (codes ".avi", codes "video/x-msvideo")
    ∷ (codes ".awb", codes "audio/amr-wb")
    ∷ (codes ".axs", codes "application/olescript")
    ∷ (codes ".bas", codes "text/plain")
    ∷ (codes ".bcpio", codes "application/x-bcpio")
    ∷ (codes ".bin ", codes "application/octet-stream")
    ∷ (codes ".bld", codes "application/bld")
    ∷ (codes ".bld2", codes "application/bld2")
    ∷ (codes ".bmp", codes "image/bmp")
    ∷ (codes ".bpk", codes "application/octet-stream")
    ∷ (codes ".bz2", codes "application/x-bzip2")
    ∷ (codes ".c", codes "text/plain")
    ∷ (codes ".cal", codes "image/x-cals")
    ∷ (codes ".cat", codes "application/vnd.ms-pkiseccat")
    ∷ (codes ".ccn", codes "application/x-cnc")
    ∷ (codes ".cco", codes "application/x-cocoa")
    ∷ (codes ".cdf", codes "application/x-cdf")
    ∷ (codes ".cer", codes "application/x-x509-ca-cert")
    ∷ (codes ".cgi", codes "magnus-internal/cgi")
    ∷ (codes ".chat", codes "application/x-chat")
    ∷ (codes ".class", codes "application/octet-stream")
    ∷ (codes ".clp", codes "application/x-msclip")
    ∷ (codes ".cmx", codes "image/x-cmx")
    ∷ (codes ".co", codes "application/x-cult3d-object")
    ∷ (codes ".cod", codes "image/cis-cod")
    ∷ (codes ".conf", codes "text/plain")
    ∷ (codes ".cpio", codes "application/x-cpio")
    ∷ (codes ".cpp", codes "text/plain")
    ∷ (codes ".cpt", codes "application/mac-compactpro")
    ∷ (codes ".crd", codes "application/x-mscardfile")
    ∷ (codes ".crl", codes "application/pkix-crl")
    ∷ (codes ".crt", codes "application/x-x509-ca-cert")
    ∷ (codes ".csh", codes "application/x-csh")
    ∷ (codes ".csm", codes "chemical/x-csml")
    ∷ (codes ".csml", codes "chemical/x-csml")
    ∷ (codes ".css", codes "text/css")
    ∷ (codes ".cur", codes "application/octet-stream")
    ∷ (codes ".dcm", codes "x-lml/x-evm")
    ∷ (codes ".dcr", codes "application/x-director")
    ∷ (codes ".dcx", codes "image/x-dcx")
    ∷ (codes ".der", codes "application/x-x509-ca-cert")
    ∷ (codes ".dhtml", codes "text/html")
    ∷ (codes ".dir", codes "application/x-director")
    ∷ (codes ".dll", codes "application/x-msdownload")
    ∷ (codes ".dmg", codes "application/octet-stream")
    ∷ (codes ".dms", codes "application/octet-stream")
    ∷ (codes ".doc", codes "application/msword")
    ∷ (
      codes ".docx",
      codes "application/vnd.openxmlformats-officedocument.wordprocessingml.document",
    )
    ∷ (codes ".dot", codes "application/msword")
    ∷ (codes ".dvi", codes "application/x-dvi")
    ∷ (codes ".dwf", codes "drawing/x-dwf")
    ∷ (codes ".dwg", codes "application/x-autocad")
    ∷ (codes ".dxf", codes "application/x-autocad")
    ∷ (codes ".dxr", codes "application/x-director")
    ∷ (codes ".ebk", codes "application/x-expandedbook")
    ∷ (codes ".emb", codes "chemical/x-embl-dl-nucleotide")
    ∷ (codes ".embl", codes "chemical/x-embl-dl-nucleotide")
    ∷ (codes ".eps", codes "application/postscript")
    ∷ (codes ".epub", codes "application/epub+zip")
    ∷ (codes ".eri", codes "image/x-eri")
    ∷ (codes ".es", codes "audio/echospeech")
    ∷ (codes ".esl", codes "audio/echospeech")
    ∷ (codes ".etc", codes "application/x-earthtime")
    ∷ (codes ".etx", codes "text/x-setext")
    ∷ (codes ".evm", codes "x-lml/x-evm")
    ∷ (codes ".evy", codes "application/envoy")
    ∷ (codes ".exe", codes "application/octet-stream")
    ∷ (codes ".fh4", codes "image/x-freehand")
    ∷ (codes ".fh5", codes "image/x-freehand")
    ∷ (codes ".fhc", codes "image/x-freehand")
    ∷ (codes ".fif", codes "application/fractals")
    ∷ (codes ".flr", codes "x-world/x-vrml")
    ∷ (codes ".flv", codes "flv-application/octet-stream")
    ∷ (codes ".fm", codes "application/x-maker")
    ∷ (codes ".fpx", codes "image/x-fpx")
    ∷ (codes ".fvi", codes "video/isivideo")
    ∷ (codes ".gau", codes "chemical/x-gaussian-input")
    ∷ (codes ".gca", codes "application/x-gca-compressed")
    ∷ (codes ".gdb", codes "x-lml/x-gdb")
    ∷ (codes ".gif", codes "image/gif")
    ∷ (codes ".gps", codes "application/x-gps")
    ∷ (codes ".gtar", codes "application/x-gtar")
    ∷ (codes ".gz", codes "application/x-gzip")
    ∷ (codes ".h", codes "text/plain")
    ∷ (codes ".hdf", codes "application/x-hdf")
    ∷ (codes ".hdm", codes "text/x-hdml")
    ∷ (codes ".hdml", codes "text/x-hdml")
    ∷ (codes ".hlp", codes "application/winhlp")
    ∷ (codes ".hqx", codes "application/mac-binhex40")
    ∷ (codes ".hta", codes "application/hta")
    ∷ (codes ".htc", codes "text/x-component")
    ∷ (codes ".htm", codes "text/html")
    ∷ (codes ".html", codes "text/html")
    ∷ (codes ".hts", codes "text/html")
    ∷ (codes ".htt", codes "text/webviewhtml")
    ∷ []
