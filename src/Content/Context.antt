-- ===== src/Content/Context.antt =====
-- The associated data of a `ContentContext` (crates/core/crypto/src/content.rs): every part with its
-- length before it.
pub mod Injective
use ryu_rooms.Prelude.{ℕ, String, List, [], ◌∷◌, ◌++◌, length}
use ryu_rooms.Bytes.{Bytes, be_onto}
use ryu_rooms.Bytes.Utf8.{as_bytes}
use ryu_rooms.Seal.{ContentContext}

unfoldable pub push_part : Bytes → Bytes → Bytes
push_part out part = out ++ be_onto 8 (length part) part

unfoldable pub push_fields : Bytes → List (String × String) → Bytes
push_fields out [] = out
push_fields out ((label, value) ∷ fields) =
    push_fields (push_part (push_part out (as_bytes label)) (as_bytes value)) fields

unfoldable pub associated_data : ContentContext → String → Bytes
unfolding push_fields
associated_data context store =
    let labelled = push_part [] (as_bytes "ryu-content-seal-v1") in
    let stored = push_part (push_part labelled (as_bytes "store")) (as_bytes store) in
    let placed = push_part (push_part stored (as_bytes "purpose")) (as_bytes context.purpose) in
    push_fields placed context.fields
