-- ===== src/Upload/Encrypted/Fresh.antt =====
-- `uploadEncryptParts` of an image that has no parts yet.
