-- ===== src/Seal/StoreSeal/Faithful.antt =====
-- crates/core/crypto/src/plugin_keys/store_seal.rs as the interface that the rooms store takes.
use ryu_rooms.Seal.{IsFaithful}
use ryu_rooms.Seal.StoreSeal.{StoreSeal, to_sealing}
use ryu_rooms.Seal.StoreSeal.Opens.{IsSound, open_text-seal_text}

-- Every mode that obeys its law gives the rooms store what it relies on: what it seals it opens.
pub to_sealing-IsFaithful : (s : StoreSeal) → IsSound s → IsFaithful (to_sealing s)
unfolding to_sealing
to_sealing-IsFaithful s law = record {
  open-seal =
      λ nonce value context sealed h. open_text-seal_text s nonce value context sealed law h;
}
