-- ===== src/SealedLog/Written.antt =====
-- What a log that was written holds: frames of records one after the other
-- (crates/core/crypto/src/sealed_log.rs).
use mathlib.Core.List.{append-nil, append_assoc}
use ryu_rooms.Prelude.{
  ℕ, zero, suc, ◌+◌, ◌≤◌, ◌<◌, ◌≡◌, refl, sym, ap, ◌∙◌, arith, Bool, true, false, some, List, [],
  ◌∷◌, ◌++◌, length, length-append,
}
use ryu_rooms.Result.{ok}
use ryu_rooms.Bytes.{Bytes}
use ryu_rooms.Content.{Primitives}
use ryu_rooms.SealedLog.{Scan, scan_from, record_aad, keep_in}
use ryu_rooms.SealedLog.Writer.{frame, count_from}
use ryu_rooms.SealedLog.Steps.{scan_from-frame, count_from-frame, count_from_nil, length-frame}

-- The records that a scan has kept after these.
abbrev pub kept : Bool → List Bytes → List Bytes → List Bytes
kept keep_records before [] = before
kept keep_records before (r ∷ rs) = kept keep_records (keep_in keep_records before r) rs

pub kept_all : (before records : List Bytes) → kept true before records ≡ before ++ records
kept_all before [] = sym (append-nil before)
kept_all before (r ∷ rs) = kept_all (before ++ r ∷ []) rs ∙ append_assoc before (r ∷ []) rs

pub kept_none : (before records : List Bytes) → kept false before records ≡ before
kept_none before [] = refl
kept_none before (r ∷ rs) = kept_none before rs

module _ (x : Primitives) (header key : Bytes) where
  -- The bytes are the frames of the records, the first of which has this index.
  abbrev pub Frames : ℕ → List Bytes → Bytes → Type 0
  Frames index [] bytes = bytes ≡ []
  Frames index (plain ∷ records) bytes =
      (nonce : Bytes) × (ciphertext : Bytes) × (more : Bytes) × (length nonce ≡ 12)
      × (length ciphertext ≡ length plain + 16)
      × (length plain + 28 ≤ 16777216)
      × (x.decrypt key nonce ciphertext (record_aad header index) ≡ some plain)
      × (bytes ≡ frame nonce ciphertext ++ more)
      × Frames (suc index) records more

  pub Frames_snoc :
      (index : ℕ) (records : List Bytes) (bytes : Bytes) (plain nonce ciphertext : Bytes)
      → length nonce ≡ 12
      → length ciphertext ≡ length plain + 16
      → length plain + 28 ≤ 16777216
      → x.decrypt key nonce ciphertext (record_aad header (index + length records)) ≡ some plain
      → Frames index records bytes
      → Frames index (records ++ plain ∷ []) (bytes ++ frame nonce ciphertext)
  Frames_snoc index [] bytes plain nonce ciphertext l c b d f =
      let start : index + 0 ≡ index = omega arith in
      (
        nonce,
        ciphertext,
        [],
        l,
        c,
        b,
        rw start at d,
        rw f (sym (append-nil (frame nonce ciphertext))),
        refl,
      )
  Frames_snoc index (r ∷ rs) bytes plain nonce ciphertext l c b d f =
      let (nonce', ciphertext', more, l', c', b', d', e, f') = f in
      let next : index + suc (length rs) ≡ suc index + length rs = omega arith in
      (
        nonce',
        ciphertext',
        more ++ frame nonce ciphertext,
        l',
        c',
        b',
        d',
        rw e (append_assoc (frame nonce' ciphertext') more (frame nonce ciphertext)),
        Frames_snoc (suc index) rs more plain nonce ciphertext l c b (rw next at d) f',
      )

  pub length-Frames-le :
      (index : ℕ) (records : List Bytes) (bytes : Bytes)
      → Frames index records bytes
      → length records ≤ length bytes
  length-Frames-le index [] bytes f = omega arith
  length-Frames-le index (r ∷ rs) bytes (n, c, more, l, k, m, d, e, f) = omega (
    arith,
    ap length e,
    length-append (frame n c) more,
    length-frame n c l,
    length-Frames-le (suc index) rs more f,
  )

  -- A scan goes over the frames and is then at what follows them.
  pub scan_from-Frames :
      (fuel index : ℕ) (keep_records : Bool) (records : List Bytes) (bytes rest : Bytes)
      (position : ℕ) (before : List Bytes) (s : Scan)
      → length records < fuel
      → Frames index records bytes
      → ((g : ℕ)
          → scan_from x
              (suc g)
              header
              key
              keep_records
              rest
              (position + length bytes)
              (index + length records)
              (kept keep_records before records)
            ≡ ok s)
      → scan_from x fuel header key keep_records (bytes ++ rest) position index before ≡ ok s
  scan_from-Frames zero index keep_records records bytes rest position before s b f last =
      absurd (omega arith)
  scan_from-Frames (suc g) index keep_records [] bytes rest position before s b f last =
      let here : position + 0 ≡ position = omega arith in
      let same : index + 0 ≡ index = omega arith in
      let step = last g in rw f (rw (f, here, same) at step)
  scan_from-Frames (suc g) index keep_records (r ∷ rs) bytes rest position before s b
        (nonce, c, more, l, k, m, d, e, f) last =
      let next : index + 1 ≡ suc index = omega arith in
      let end : position + length (frame nonce c) + length more ≡ position + length bytes =
        omega (arith, ap length e, length-append (frame nonce c) more) in
      let count : suc index + length rs ≡ index + suc (length rs) = omega arith in
      rw
        (
          e,
          append_assoc (frame nonce c) more rest,
          scan_from-frame x g header key keep_records nonce c r (more ++ rest) position index before
              l (omega arith) (omega arith) d,
          next,
        )
        (scan_from-Frames g (suc index) keep_records rs more rest
          (position + length (frame nonce c)) (keep_in keep_records before r) s (omega arith) f
          (λ h. rw (end, count) (last h)))

  pub count_from-Frames :
      (fuel index : ℕ) (records : List Bytes) (bytes : Bytes)
      → length records ≤ fuel
      → Frames index records bytes
      → count_from fuel bytes ≡ length records
  count_from-Frames fuel index [] bytes b f = rw f (count_from_nil fuel)
  count_from-Frames zero index (r ∷ rs) bytes b f = absurd (omega arith)
  count_from-Frames (suc g) index (r ∷ rs) bytes b (nonce, c, more, l, k, m, d, e, f) =
      rw (e, count_from-frame g nonce c more l (omega arith))
        (omega (arith, count_from-Frames g (suc index) rs more (omega arith) f))
