-- ===== src/Masm/Args/Fits.antt =====
-- src/libisa/masm/ir/args.tpp: `fits_in` for a signed number and one byte.
use libsim.Prelude.{ℕ, ◌+◌, ◌<◌, ◌≡◌, ◌⊎◌, ◌↔◌, ap, Bool, ltb, if◌then◌else◌, true, arith, u8}
use libsim.Prelude.Exec.{Outcome, ok}
use libsim.Masm.Args.{dec, fits_in, dec_fits_in}

-- The 16-bit number that a byte stands for in two's complement.
abbrev pub sign_extend : ℕ → ℕ
sign_extend byte = if ltb byte 128 then byte else byte + 65280

abbrev answer : Outcome Bool → Bool
answer (ok b) = b
answer _ = true

dec_fits_in_iff :
    (v : ℕ) → v < 65536 → (dec_fits_in v 1 ≡ true) ↔ ((sign_extend (u8 v) ≡ v) ⊎ (v ≡ 65407))
unfolding dec_fits_in
dec_fits_in_iff v h = ground arith

-- A signed decimal number passes as one that fits in a byte exactly if its low byte stands for it, or if it
-- is -129, whose low byte stands for 127.
pub fits_in-dec_iff :
    (v : ℕ) → v < 65536 → (fits_in 1 (dec v) ≡ ok true) ↔ ((sign_extend (u8 v) ≡ v) ⊎ (v ≡ 65407))
unfolding fits_in
fits_in-dec_iff v h =
    (λ e. (dec_fits_in_iff v h).0 (ap answer e), λ e. ap ok ((dec_fits_in_iff v h).1 e))
