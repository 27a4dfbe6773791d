-- ===== src/Store/Lifecycle/Ending.antt =====
-- Closed rooms through the life of a store (backend/src/store.rs).
use ryu_rooms.Prelude.{String, ◌≡◌}
use ryu_rooms.Store.{Db, RoomStore, External, empty}
use ryu_rooms.Store.Consistent.{IsConsistent}
use ryu_rooms.Store.Lifecycle.{
  IsLasting, IsConsistent-lasting, Reach, Reach-lasting, Reach-IsConsistent,
}
use ryu_rooms.Store.Lifecycle.Closed.{
  IsClosed, insert_new_room-IsClosed, admit-IsClosed, rotate-IsClosed, revoke_invite-IsClosed,
  accept_turn-IsClosed, append_delta-IsClosed, settle-IsClosed, stop_run-IsClosed,
  close_room-IsClosed, recover_running-IsClosed,
}

module _ (x : External) (k : String) where
  abbrev IsClosedWell : Db → Type 0
  IsClosedWell db = IsConsistent db × IsClosed k db

  IsClosed-lasting : IsLasting x IsClosedWell
  IsClosed-lasting =
      let c = IsConsistent-lasting x in
      record {
        on_create = λ room invite host. record {
          at = λ s h. (
            (c.on_create room invite host).at s h.0,
            insert_new_room-IsClosed k room invite host s h.1,
          );
        };
        on_admit = λ now digest participant session. record {
          at = λ s h. (
            (c.on_admit now digest participant session).at s h.0,
            admit-IsClosed k x now digest participant session s h.1,
          );
        };
        on_rotate = λ room_id digest expires_at now_text. record {
          at = λ s h. (
            (c.on_rotate room_id digest expires_at now_text).at s h.0,
            rotate-IsClosed k room_id digest expires_at now_text s h.1,
          );
        };
        on_revoke = λ d room_id. record {
          at =
              λ s h. ((c.on_revoke d room_id).at s h.0, revoke_invite-IsClosed k x d room_id s h.1);
        };
        on_accept = λ d room_id participant_id key text. record {
          at = λ s h. (
            (c.on_accept d room_id participant_id key text).at s h.0,
            accept_turn-IsClosed k x d room_id participant_id key text s h.0 h.1,
          );
        };
        on_extend = λ d room_id run_id delta. record {
          at = λ s h. (
            (c.on_extend d room_id run_id delta).at s h.0,
            append_delta-IsClosed k x d room_id run_id delta s h.1,
          );
        };
        on_settle = λ d room_id run_id terminal final. record {
          at = λ s h. (
            (c.on_settle d room_id run_id terminal final).at s h.0,
            settle-IsClosed k x d room_id run_id terminal s h.1,
          );
        };
        on_stop = λ d room_id run_id. record {
          at = λ s h.
              ((c.on_stop d room_id run_id).at s h.0, stop_run-IsClosed k x d room_id run_id s h.1);
        };
        on_close = λ d room_id. record {
          at = λ s h. ((c.on_close d room_id).at s h.0, close_room-IsClosed k x d room_id s h.1);
        };
        on_recover = λ d. record {
          at = λ s h. ((c.on_recover d).at s h.0, recover_running-IsClosed k x d s h.1);
        };
      }

  -- A room that is closed in a store that was reached from an empty database is closed after every
  -- further sequence of sections: no operation, in any order, opens it again or removes it.
  pub Reach-IsClosed :
      {r s t : RoomStore}
      → r.db ≡ empty
      → Reach x r s
      → IsClosed k s.db
      → Reach x s t
      → IsClosed k t.db
  Reach-IsClosed e reach h later =
      (Reach-lasting x IsClosed-lasting (Reach-IsConsistent x e reach, h) later).1
