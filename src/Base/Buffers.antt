-- ===== src/Base/Buffers.antt =====
-- A node Buffer as the list of its bytes, read at an absolute offset.
use Prim.Native.Nat.{ℕ, zero, suc, ◌+◌, ◌-◌, ◌*◌, ◌/◌, ◌%◌, ◌<◌, ◌≤◌}
use mathlib.Core.Path.{◌≡◌, refl, ap, sym, ◌∙◌}
use mathlib.Core.List.{List, [], ◌∷◌, ◌++◌}
use native.Mathlib.Omega.{arith}
use matterbridge.Base.Lists.{
  All, length, get_or, take, drop, length-drop, length-take, length-append, drop-drop, take-append,
  drop-append,
}

-- `buffer[i]`, where `i` is known to be in range.
abbrev pub byte : List ℕ → ℕ → ℕ
byte msg i = get_or msg i 0

-- `buffer.subarray(start, end)`: both ends are clamped to the buffer.
abbrev pub subarray : List ℕ → ℕ → ℕ → List ℕ
subarray msg from to = take (to - from) (drop from msg)

-- `readUInt16BE` in range.
abbrev pub word : List ℕ → ℕ → ℕ
word msg i = byte msg i * 256 + byte msg (i + 1)

-- The bytes that `writeUInt16BE` writes for a number that fits.
abbrev pub word_bytes : ℕ → List ℕ
word_bytes n = (n / 256) ∷ (n % 256) ∷ []

-- From `off` on the buffer holds `rest`.
pub record At (msg : List ℕ) (off : ℕ) (rest : List ℕ) : Type 0 where
  pub within : off ≤ length msg
  pub suffix : drop off msg ≡ rest

byte-drop : (n : ℕ) (msg : List ℕ) → byte msg n ≡ byte (drop n msg) 0
byte-drop zero msg = refl
byte-drop (suc n) [] = refl
byte-drop (suc n) (x ∷ xs) = byte-drop n xs

pub At-byte : {msg : List ℕ} {off x : ℕ} {rest : List ℕ} → At msg off (x ∷ rest) → byte msg off ≡ x
At-byte {msg} {off} a = byte-drop off msg ∙ ap (λ l. byte l 0) a.suffix

pub At-lt : {msg : List ℕ} {off x : ℕ} {rest : List ℕ} → At msg off (x ∷ rest) → off < length msg
At-lt {msg} {off} a = omega (arith, length-drop {0} off msg, ap length a.suffix)

pub At-nil : {msg : List ℕ} {off : ℕ} → At msg off [] → off ≡ length msg
At-nil {msg} {off} a = omega (arith, a.within, length-drop {0} off msg, ap length a.suffix)

module _ {msg : List ℕ} {off : ℕ} (part rest : List ℕ) (a : At msg off (part ++ rest)) where
  pub At-append_le : off + length part ≤ length msg
  At-append_le =
      omega
        (arith, a.within, length-drop {0} off msg, ap length a.suffix, length-append {0} part rest)

  pub At-append : At msg (off + length part) rest
  At-append = record {
    within = At-append_le;
    suffix =
        sym (drop-drop (length part) off msg)
        ∙ ap (drop (length part)) a.suffix
        ∙ drop-append part rest;
  }

  pub At-subarray : subarray msg off (off + length part) ≡ part
  At-subarray =
      ap (λ k. take k (drop off msg))
        (let e : off + length part - off ≡ length part = omega arith in e)
      ∙ ap (take (length part)) a.suffix
      ∙ take-append part rest

pub At-next :
    {msg : List ℕ} {off x : ℕ} {rest : List ℕ} → At msg off (x ∷ rest) → At msg (off + 1) rest
At-next {x = x} {rest = rest} a = At-append (x ∷ []) rest a

pub At-all : (msg : List ℕ) → At msg 0 msg
At-all msg = record { within = omega arith; suffix = refl }

abbrev pub IsByte : ℕ → Type 0
IsByte b = b < 256

pub byte-lt : (msg : List ℕ) (i : ℕ) → All IsByte msg → byte msg i < 256
byte-lt [] i h = omega arith
byte-lt (b ∷ bs) zero h = h.0
byte-lt (b ∷ bs) (suc i) h = byte-lt bs i h.1

pub length-subarray :
    (msg : List ℕ) (from to : ℕ)
    → from ≤ to
    → to ≤ length msg
    → length (subarray msg from to) ≡ to - from
length-subarray msg from to h k =
    omega (arith, length-take {0} (to - from) (drop from msg), length-drop {0} from msg)

pub At-prefix : (before rest : List ℕ) → At (before ++ rest) (length before) rest
At-prefix before rest = record {
  within = omega (arith, length-append {0} before rest);
  suffix = drop-append before rest;
}
