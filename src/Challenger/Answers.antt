-- ===== src/Challenger/Answers.antt =====
-- `check_sha` and `check_auth_validity`: the parts of a cookie that show an answer.
pub mod Digits
use Prim.Native.Nat.{bit_and}
use banjax.Base.{
  ℕ, zero, suc, ◌+◌, Bool, true, false, not, List, [], ◌∷◌, ◌++◌, Option, none, some, Bytes, c_str,
  length, take, drop, beq, ltb, leb, ◌==◌, if◌then◌else◌,
}
use banjax.Base64.{decode}
use banjax.CookieHash.{cookie_b64_length}
use banjax.Library.{Library}

-- The bits of a byte in the order of the tests.
abbrev pub bit_order : List ℕ
bit_order = 16 ∷ 32 ∷ 64 ∷ 128 ∷ 1 ∷ 2 ∷ 4 ∷ 8 ∷ []

-- `if (h & mask) break; else ++count;` in a row, and `rest` for what comes after the row.
unfoldable pub count_clear : ℕ → List ℕ → ℕ → ℕ
count_clear h [] rest = rest
count_clear h (mask ∷ masks) rest =
    if not (bit_and h mask == 0) then 0 else suc (count_clear h masks rest)

unfoldable pub count_zeros : Bytes → ℕ
unfolding count_clear
count_zeros [] = 0
count_zeros (h ∷ hs) = count_clear h bit_order (count_zeros hs)

module _ (x : Library) where
  unfoldable pub check_sha : ℕ → Bytes → Bool
  unfolding count_zeros
  check_sha number_of_trailing_zeros cookie =
      leb number_of_trailing_zeros (count_zeros (x.sha256 (c_str cookie)))

  -- `none` is a `memcmp` past the end of the decoded data and its NUL.
  unfoldable pub check_auth_validity : Bytes → Bytes → Option Bool
  check_auth_validity cookie password_hash =
      let text = c_str cookie in
      if ltb (length text) (cookie_b64_length + length password_hash)
      then some false
      else elim (decode (drop cookie_b64_length text)) [
        | none ↦ some false
        | some cookiedata ↦
            if ltb (length cookiedata + 1) 32
            then none
            else some (
                beq (take 32 (cookiedata ++ 0 ∷ []))
                  (take 32 (x.sha256 (take cookie_b64_length text ++ password_hash))))
      ]
