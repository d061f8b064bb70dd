-- ===== src/FrozenLevels/Types.antt =====
-- engine/frozenlevels/types.go and the quotes of lock.go.
use heisentick_strat.Prelude.{
  ℕ, Bool, Float, Int64, Option, Text, [], arith, false, fin, float_lt, if◌then◌else◌, int,
  is_finite, leb, length, ltb, none, not, some, text_eq, true, ◌&&◌, ◌==◌, ◌||◌, ◌∷◌, ◌≡◌, ◌⊎◌,
}

-- 5 minutes, and the largest exact millisecond 2^53 - 1.
abbrev pub m5_millis : ℕ
m5_millis = 300000

abbrev pub max_exact_millis : Int64
max_exact_millis = int 9007199254740991

-- A side that is none of the three is kept as it is written.
pub data QuoteSide : Type 0 where
  bid ask mid : QuoteSide
  other_side : Text → QuoteSide

pub record Source : Type 0 where
  pub provider : Text
  pub dataset : Text
  pub sha256 : Text
  pub side : QuoteSide

abbrev is_space : ℕ → Bool
is_space c = c == 32 || (leb 9 c && leb c 13)

-- strings.TrimSpace(s) == "", for ASCII text.
unfoldable pub is_blank : Text → Bool
is_blank [] = true
is_blank (c ∷ s) = is_space c && is_blank s

abbrev is_hex : ℕ → Bool
is_hex c = (leb b'0' c && leb c b'9') || (leb b'a' c && leb c b'f') || (leb b'A' c && leb c b'F')

unfoldable pub all_hex : Text → Bool
all_hex [] = true
all_hex (c ∷ s) = is_hex c && all_hex s

-- hex.DecodeString succeeds with 32 bytes.
abbrev is_digest : Text → Bool
is_digest s = all_hex s && length s == 64

pub data SourceError : Type 0 where
  invalid_source_identity invalid_quote_side : SourceError

abbrev is_quote_side : QuoteSide → Bool
is_quote_side (other_side s) = false
is_quote_side _ = true

-- Source.validate
unfoldable pub validate_source : Source → Option SourceError
unfolding is_blank all_hex
validate_source s =
    if is_blank s.provider || is_blank s.dataset || not (is_digest s.sha256)
    then some invalid_source_identity
    else if not (is_quote_side s.side)
    then some invalid_quote_side
    else none

unfoldable pub side_eq : QuoteSide → QuoteSide → Bool
side_eq bid bid = true
side_eq ask ask = true
side_eq mid mid = true
side_eq (other_side s) (other_side t) = text_eq s t
side_eq _ _ = false

-- Source values compared by ==.
unfoldable pub source_eq : Source → Source → Bool
source_eq s t =
    text_eq s.provider t.provider
    && text_eq s.dataset t.dataset
    && text_eq s.sha256 t.sha256
    && side_eq s.side t.side

abbrev pub is_bid : QuoteSide → Bool
is_bid bid = true
is_bid _ = false

unfoldable pub finite_positive : Float → Bool
finite_positive x = float_lt (fin 0 0) x && is_finite x

abbrev pub valid_millis : Int64 → Bool
valid_millis t = leb (int 0) t && leb t max_exact_millis

pub record EventKey : Type 0 where
  pub at_millis : Int64
  pub sequence : Int64

abbrev pub valid_key : EventKey → Bool
valid_key k = valid_millis k.at_millis && leb (int 0) k.sequence && leb k.sequence max_exact_millis

-- k.After(other)
unfoldable pub after : EventKey → EventKey → Bool
after k other =
    ltb other.at_millis k.at_millis
    || (k.at_millis == other.at_millis && ltb other.sequence k.sequence)

pub record Quote : Type 0 where
  pub event : EventKey
  pub available_at_millis : Int64
  pub bid : Float
  pub ask : Float

-- Quote.validate: whether there is no error.
unfoldable pub valid_quote : Quote → Bool
valid_quote q =
    valid_key q.event
    && valid_millis q.available_at_millis
    && not (ltb q.available_at_millis q.event.at_millis)
    && finite_positive q.bid
    && finite_positive q.ask
    && not (float_lt q.ask q.bid)

-- The observation order is a strict order: no event is after itself, and it is transitive.
pub after_irrefl : (k : EventKey) → after k k ≡ false
unfolding after
after_irrefl k = ground arith

pub after_trans : (j k l : EventKey) → after j k ≡ true → after k l ≡ true → after j l ≡ true
unfolding after
after_trans j k l h g = ground arith

pub after_total : (j k : EventKey) → (after j k ≡ true) ⊎ ((after k j ≡ true) ⊎ (j ≡ k))
unfolding after
after_total j k = ground arith
