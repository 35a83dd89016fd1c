-- ===== src/Python.antt =====
-- Models of the functions of Python's standard library that the program's policies rest on.
pub mod Posixpath
pub mod Utf8
pub mod Unquote
pub mod Base64
