-- ===== src/Mdns/Errors.antt =====
-- The errors that the mDNS codec throws.

-- `out_of_range` is the RangeError of a read or a write of a Buffer; `out_of_fuel` is the model's
-- own, for loops with no bound in the source.
pub data MdnsError : Type 0 where
  message_too_short too_many_iterations offset_exceeds incomplete_pointer label_exceeds : MdnsError
  entry_too_long invalid_address no_answers out_of_range out_of_fuel : MdnsError
