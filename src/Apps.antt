-- ===== src/Apps.antt =====
-- The programs that use a session: the file transfer and the echo of SCMultipath.
pub mod Stream
pub mod File
pub mod Program
pub mod Server
pub mod Echo
