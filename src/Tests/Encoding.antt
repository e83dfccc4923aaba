-- ===== src/Tests/Encoding.antt =====
-- Base64, quoting and ranges.
use banjax.Base.{◌≡◌, ◌^◌, refl, c_str, some, codes, arith, ◌==◌, ◌/◌, ◌≢◌, not}
use banjax.Base64.{b64_table, encode, decode}
use banjax.Base64.Groups.{encode-groups}
use banjax.Base64.RoundTrip.{decode-encode}
use banjax.Tests.Samples.{address, address-lt, number, All-every, All-IsByte}
use banjax.Util.{SubnetRange, range, make_mask_for_range, is_match}
use banjax.Util.Masks.Ranges.{is_match-range}

encode-groups_example : encode (codes "foob") ≡ some (codes "Zm9vYg==")
unfolding b64_table
encode-groups_example = encode-groups (codes "foob") (All-IsByte (codes "foob") refl) (omega arith)

decode-encode_example : decode (codes "Zm9vYg==") ≡ some (codes "foob")
unfolding b64_table
decode-encode_example =
    decode-encode (codes "foob") (codes "Zm9vYg==") (All-IsByte (codes "foob") refl)
      (encode-groups (codes "foob") (All-IsByte (codes "foob") refl) (omega arith))

is_match-range_example :
    (r : SubnetRange) × (make_mask_for_range address number (codes "10.1.2.0/24") ≡ range r)
    × (is_match address (codes "10.1.2.9") r
        ≡ (address (codes "10.1.2.0") / 2 ^ 8 == address (codes "10.1.2.9") / 2 ^ 8))
unfolding c_str
is_match-range_example =
    is_match-range address number address-lt (codes "10.1.2.0") (codes "24") (codes "10.1.2.9") 24
      (All-every (λ c. c ≢ 47) (λ c. not (c == 47)) (λ c h. ground (arith, h)) (codes "10.1.2.0")
        refl)
      refl (omega arith) (omega arith)
