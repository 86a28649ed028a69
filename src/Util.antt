-- ===== src/Util.antt =====
-- include/httplib/util/misc.hpp: splitting a text, and URL coding. `boost::trim_copy`, which
-- splitting calls, is a parameter of the model (`Trim`).
pub mod Trim
pub mod Split
pub mod Url
pub mod ActionQueue
