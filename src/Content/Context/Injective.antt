-- ===== src/Content/Context/Injective.antt =====
-- No two places have the same associated data (crates/core/crypto/src/content.rs).
use mathlib.Core.List.{append_assoc, append-nil}
use ryu_rooms.Prelude.{
  ◌<◌, ◌≡◌, ◌≢◌, refl, sym, ap, ◌∙◌, arith, String, List, [], ◌∷◌, ◌++◌, length, All,
}
use ryu_rooms.Bytes.{Bytes, be_onto}
use ryu_rooms.Bytes.Numbers.{be_onto-append, be_onto_inj, be_onto_cancel, length-be_onto}
use ryu_rooms.Bytes.Utf8.{as_bytes}
use ryu_rooms.Bytes.Utf8.Decoding.{as_bytes_inj}
use ryu_rooms.Seal.{ContentContext}
use ryu_rooms.Content.Context.{push_part, push_fields, associated_data}

-- The parts one after the other, each with its length.
frames : List Bytes → Bytes
frames [] = []
frames (p ∷ ps) = be_onto 8 (length p) (p ++ frames ps)

-- What every part of a context is: its length is a number of eight bytes.
abbrev pub IsShort : String → Type 0
IsShort s = length (as_bytes s) < 18446744073709551616

abbrev pub AreShort : ContentContext → String → Type 0
AreShort context store =
    IsShort store
    × IsShort context.purpose
    × All (λ (f : String × String). IsShort f.0 × IsShort f.1) context.fields

parts_of : List (String × String) → List Bytes
parts_of [] = []
parts_of ((label, value) ∷ fields) = as_bytes label ∷ as_bytes value ∷ parts_of fields

push_part-append :
    (out p xs : Bytes) → push_part out p ++ xs ≡ out ++ be_onto 8 (length p) (p ++ xs)
unfolding push_part
push_part-append out p xs =
    append_assoc out (be_onto 8 (length p) p) xs
    ∙ ap (λ (r : Bytes). out ++ r) (be_onto-append 8 (length p) p xs)

push_fields-frames :
    (out : Bytes) (fields : List (String × String))
    → push_fields out fields ≡ out ++ frames (parts_of fields)
unfolding push_fields parts_of frames
push_fields-frames out [] = sym (append-nil out)
push_fields-frames out ((label, value) ∷ fields) =
    let tail = frames (parts_of fields) in
    let l = as_bytes label in
    let v = as_bytes value in
    push_fields-frames (push_part (push_part out l) v) fields
    ∙ push_part-append (push_part out l) v tail
    ∙ push_part-append out l (be_onto 8 (length v) (v ++ tail))

associated_data-frames :
    (context : ContentContext) (store : String)
    → associated_data context store
      ≡ frames (
          as_bytes "ryu-content-seal-v1"
          ∷ as_bytes "store"
          ∷ as_bytes store
          ∷ as_bytes "purpose"
          ∷ as_bytes context.purpose
          ∷ parts_of context.fields)
unfolding associated_data frames
associated_data-frames context store = simp (push_fields-frames, push_part-append)

append_inj : (p q xs ys : Bytes) → length p ≡ length q → p ++ xs ≡ q ++ ys → (p ≡ q) × (xs ≡ ys)
append_inj [] [] xs ys l h = (refl, h)
append_inj [] (c ∷ q) xs ys l h = absurd (omega arith)
append_inj (b ∷ p) [] xs ys l h = absurd (omega arith)
append_inj (b ∷ p) (c ∷ q) xs ys l h =
    ground (arith, λ (e : p ++ xs ≡ q ++ ys). append_inj p q xs ys (omega arith) e)

frame_inj :
    (p q xs ys : Bytes)
    → length p < 18446744073709551616
    → length q < 18446744073709551616
    → be_onto 8 (length p) (p ++ xs) ≡ be_onto 8 (length q) (q ++ ys)
    → (p ≡ q) × (xs ≡ ys)
frame_inj p q xs ys a b h =
    let (e, f) =
      be_onto_inj 8 (length p) (length q) (p ++ xs) (q ++ ys) (omega arith) (omega arith) h in
    append_inj p q xs ys e f

frame_cancel :
    (p xs ys : Bytes) → be_onto 8 (length p) (p ++ xs) ≡ be_onto 8 (length p) (p ++ ys) → xs ≡ ys
frame_cancel p xs ys h =
    (append_inj p p xs ys refl (be_onto_cancel 8 (length p) (p ++ xs) (p ++ ys) h)).1

frame-ne-nil : (p xs : Bytes) → be_onto 8 (length p) (p ++ xs) ≢ []
frame-ne-nil p xs h = omega (arith, length-be_onto 8 (length p) (p ++ xs), ap length h)

fields_inj :
    (fs gs : List (String × String))
    → All (λ (f : String × String). IsShort f.0 × IsShort f.1) fs
    → All (λ (f : String × String). IsShort f.0 × IsShort f.1) gs
    → frames (parts_of fs) ≡ frames (parts_of gs)
    → fs ≡ gs
unfolding parts_of frames
fields_inj [] [] a b h = refl
fields_inj [] ((l, v) ∷ gs) a b h = absurd (frame-ne-nil _ _ (sym h))
fields_inj ((l, v) ∷ fs) [] a b h = absurd (frame-ne-nil _ _ h)
fields_inj ((l, v) ∷ fs) ((m, w) ∷ gs) a b h =
    let (e, h') = frame_inj (as_bytes l) (as_bytes m) _ _ a.0.0 b.0.0 h in
    let (e', h'') = frame_inj (as_bytes v) (as_bytes w) _ _ a.0.1 b.0.1 h' in
    ground (arith, as_bytes_inj l m e, as_bytes_inj v w e', fields_inj fs gs a.1 b.1 h'')

-- Two contexts in two stores, all of whose parts are shorter than 2 ^ 64 bytes, have the same
-- associated data only when the stores, the purposes and the fields in their order are the same.
pub associated_data_inj :
    (c d : ContentContext) (s t : String)
    → AreShort c s
    → AreShort d t
    → associated_data c s ≡ associated_data d t
    → (c ≡ d) × (s ≡ t)
unfolding frames
associated_data_inj c d s t a b h =
    let e = sym (associated_data-frames c s) ∙ h ∙ associated_data-frames d t in
    let e1 = frame_cancel (as_bytes "ryu-content-seal-v1") _ _ e in
    let e2 = frame_cancel (as_bytes "store") _ _ e1 in
    let (store, e3) = frame_inj (as_bytes s) (as_bytes t) _ _ a.0 b.0 e2 in
    let e4 = frame_cancel (as_bytes "purpose") _ _ e3 in
    let (purpose, e5) = frame_inj (as_bytes c.purpose) (as_bytes d.purpose) _ _ a.1 b.1 e4 in
    ground (
      arith,
      as_bytes_inj s t store,
      as_bytes_inj c.purpose d.purpose purpose,
      fields_inj c.fields d.fields a.2 b.2 e5,
    )
