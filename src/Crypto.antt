-- ===== src/Crypto.antt =====
-- libraries/eosiolib/core/eosio/crypto_utils.hpp: base64, and the parser of RSA public keys.
pub mod Base64
pub mod Pem
pub mod Rsa
