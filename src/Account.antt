-- ===== src/Account.antt =====
-- xelis_common/src/account: ciphertexts that are compressed lazily, and the versions of nonces and
-- balances with their bytes. The point arithmetic of the curve is an interface, `ElGamal`.
pub mod Cache
pub mod Nonce
pub mod Balance
