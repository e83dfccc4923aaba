-- ===== src/Muncher/Parts.antt =====
-- `TransactionPart`, `TransactionParts` and the fields of `TransactionMuncher`.
use banjax.Base.{
  ℕ, ◌+◌, Bool, false, not, ◌&&◌, ◌||◌, List, [], ◌∷◌, Option, none, some, Bytes, any, leb, ◌==◌,
  if◌then◌else◌, map,
}
use banjax.CookieHash.Words.{le_bytes}

pub data Part : Type 0 where
  validity_stat ip url host ua cookie url_with_host method miss status protocol content_length :
      Part

-- The flag of a part. `validity_stat` has none.
abbrev pub flag_of : Part → ℕ
flag_of validity_stat = 0x000
flag_of ip = 0x001
flag_of url = 0x002
flag_of host = 0x004
flag_of ua = 0x008
flag_of cookie = 0x010
flag_of url_with_host = 0x020
flag_of method = 0x040
flag_of miss = 0x080
flag_of status = 0x100
flag_of protocol = 0x200
flag_of content_length = 0x400

abbrev pub is_part : Part → Part → Bool
is_part p q = flag_of p == flag_of q

abbrev pub all_parts : List Part
all_parts =
    ip ∷ url ∷ host ∷ ua ∷ cookie ∷ url_with_host ∷ method ∷ miss ∷ status ∷ protocol
    ∷ content_length ∷ []

-- A collection of flags, as the bits of its `uint64_t`: the test of `word & part`.
abbrev pub Flags : Type 0
Flags = Part → Bool

-- `p | q | ...`
abbrev pub flags : List Part → Flags
flags l p = any (is_part p) l

abbrev pub or_flags : Flags → Flags → Flags
or_flags a b p = a p || b p

-- `(~valid) & requested`
abbrev pub missing : Flags → Flags → Flags
missing valid requested p = not (valid p) && requested p

abbrev pub any_flag : Flags → Bool
any_flag f = any f all_parts

abbrev pub sum_flags : Flags → List Part → ℕ
sum_flags f [] = 0
sum_flags f (p ∷ ps) = (if f p then flag_of p else 0) + sum_flags f ps

-- The eight bytes of the word, as `update_validity_status` copies them.
abbrev pub word_bytes : Flags → Bytes
word_bytes f = le_bytes 8 (sum_flags f all_parts)

-- `std::map<uint64_t, string>` by its lookup.
abbrev pub TransactionParts : Type 0
TransactionParts = Part → Option Bytes

-- `parts[p] = v`, and `insert`, which leaves an entry that is there.
abbrev pub assign : Part → Bytes → TransactionParts → TransactionParts
assign p v m q = if is_part p q then some v else m q

abbrev pub insert_new : Part → Bytes → TransactionParts → TransactionParts
insert_new p v m q = elim (m q) [ some w ↦ some w | none ↦ if is_part p q then some v else none ]

pub record Muncher : Type 0 where
  pub cur_trans_parts : TransactionParts
  pub valid_parts : Flags
  -- Whether the headers have been retrieved.
  pub request_header : Bool
  pub response_header : Bool
  -- The host that `TSUrlHostSet` has put into the URL of the request.
  pub url_host : Option Bytes

abbrev pub update_validity_status : Muncher → Muncher
update_validity_status m = record m {
  cur_trans_parts = assign validity_stat (word_bytes m.valid_parts) m.cur_trans_parts;
}

unfoldable pub fresh_muncher : Muncher
fresh_muncher = update_validity_status (record {
  cur_trans_parts = λ p. none;
  valid_parts = λ p. false;
  request_header = false;
  response_header = false;
  url_host = none;
})

-- `set_miss`.
unfoldable pub set_miss : Muncher → Muncher
set_miss m = record m { cur_trans_parts = assign miss [] m.cur_trans_parts }

-- `to_lower` in the C locale.
abbrev to_lower_byte : ℕ → ℕ
to_lower_byte c = if leb 65 c && leb c 90 then c + 32 else c

unfoldable pub to_lower : Bytes → Bytes
to_lower s = map to_lower_byte s
