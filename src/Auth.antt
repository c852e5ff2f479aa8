-- ===== src/Auth.antt =====
-- What src/ppp_auth.cpp and src/ppp_chap.cpp make of the answers of src/aaa.cpp, and of the bytes of
-- a peer's request.
pub mod Network
pub mod Answers
pub mod Requests
