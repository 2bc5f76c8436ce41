-- ===== src/Mdns/Names/Carried.antt =====
-- Names that the codec carries, as the records and messages use them.
use matterbridge.Base.{ℕ, ◌+◌, ◌≤◌, ◌≡◌, List, ◌++◌, length, All, ok, At, split, join-split}
use matterbridge.Mdns.Names.{decode_dns_name, encode_dns_name}
use matterbridge.Mdns.Names.RoundTrip.{
  IsLabel, label_bytes, encode_labels_ascii, decode_label_bytes,
}

-- A name that the codec carries.
pub record IsName (name : List ℕ) : Type 0 where
  pub labels_fit : All IsLabel (split b'.' name)
  pub few_labels : length (split b'.' name) ≤ 1000

abbrev pub name_bytes : List ℕ → List ℕ
name_bytes name = label_bytes (split b'.' name)

pub encode_dns_name_fits :
    (name : List ℕ) → IsName name → encode_dns_name name ≡ ok (name_bytes name)
unfolding encode_dns_name
encode_dns_name_fits name v = encode_labels_ascii (split b'.' name) v.labels_fit

pub decode_name_bytes :
    (name : List ℕ) {msg : List ℕ} (off : ℕ) (rest : List ℕ)
    → At msg off (name_bytes name ++ rest)
    → IsName name
    → decode_dns_name msg off
      ≡ ok (record { name = name; new_offset = off + length (name_bytes name) })
decode_name_bytes name off rest a v = rw (
  decode_label_bytes (split b'.' name) off rest a v.labels_fit v.few_labels,
  join-split b'.' name,
)
