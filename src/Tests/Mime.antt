-- ===== src/Tests/Mime.antt =====
-- Types of some extensions.
use httplib.Base.{◌≡◌, refl, true, codes}
use httplib.Mime.{get_mime_type}
use httplib.Mime.MediaTypes.{is_media_type, get_mime_type-media_type}

xml_type : is_media_type (get_mime_type (codes ".xml")) ≡ true
xml_type = get_mime_type-media_type (codes ".xml")

-- Of the two entries for `.xml` the first counts.
xml_is_plain : get_mime_type (codes ".xml") ≡ codes "text/plain"
unfolding get_mime_type httplib.Base.eq_text
xml_is_plain = refl
