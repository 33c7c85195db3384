-- ===== src/Chat/Private.antt =====
-- Each event of the gateway keeps the chat private.
use esim_backend.Base.{
  ℕ, ◌≡◌, refl, sym, ap, ◌∙◌, ◌⊎◌, inl, inr, Bool, true, false, Option, none, some, ◌==◌, ==_iff,
  Option-cases, arith,
}
use esim_backend.Base.Text.{Text}
use esim_backend.Storage.Rows.{find_one}
use esim_backend.Chat.Data.{ChatRoom, ChatEnv, ChatState, written, broadcast}
use esim_backend.Chat.Readers.{
  IsPrivate, AllDeliveries-append, broadcast-AllDeliveries, AllMembers-insert, AllDeliveries-insert,
}
use esim_backend.Chat.Gateway.{
  room_or_new, new_room, get_or_create_room, post, post_if, mark_as_read, send_welcome_message,
  send_first_response,
}

module _ ⦃env : ChatEnv⦄ where
  pub post-IsPrivate :
      (room_id : ℕ) (sender : Option ℕ) (text : Text) (st : ChatState env)
      → IsPrivate st
      → IsPrivate (post room_id sender text st)
  unfolding post
  post-IsPrivate room_id sender text st p = record {
    unique = p.unique;
    members = p.members;
    deliveries =
        AllDeliveries-append st.rooms (broadcast room_id _ st.members) st.deliveries
          (broadcast-AllDeliveries st.rooms room_id _ st.members refl p.members) p.deliveries;
  }

  post_if-IsPrivate :
      (wanted : Bool) (room_id : ℕ) (text : Option Text) (st : ChatState env)
      → IsPrivate st
      → IsPrivate (post_if wanted room_id text st)
  unfolding post_if
  post_if-IsPrivate false room_id text st p = p
  post_if-IsPrivate true room_id text st p = elim (Option-cases (written text)) [
    | inl missing ↦ rw missing p
    | inr (t, given) ↦ rw given (post-IsPrivate room_id none t st p)
  ]

  -- A room with a new id.
  new_room_unique :
      (user_id : ℕ) (st : ChatState env) (x y : ChatRoom)
      → IsPrivate st
      → (x ≡ new_room user_id st) ⊎ env.room.Holds x st.rooms
      → (y ≡ new_room user_id st) ⊎ env.room.Holds y st.rooms
      → x.id ≡ y.id
      → x ≡ y
  new_room_unique user_id st x y p (inl e) (inl e') same = e ∙ sym e'
  new_room_unique user_id st x y p (inl e) (inr k) same =
      absurd (omega (arith, ap (λ r. r.id) e, same, env.room.next_id_fresh y st.rooms k))
  new_room_unique user_id st x y p (inr h) (inl e) same =
      absurd (omega (arith, ap (λ r. r.id) e, same, env.room.next_id_fresh x st.rooms h))
  new_room_unique user_id st x y p (inr h) (inr k) same = p.unique x y h k same

  -- The room belongs to the user, and the state stays private.
  abbrev pub IsRoomOf : ℕ → ChatRoom × ChatState env → Type 0
  IsRoomOf user_id (room, st) =
      IsPrivate st × env.room.Holds room st.rooms × (room.user_id ≡ user_id)

  room_or_new-IsRoomOf :
      (user_id : ℕ) (st : ChatState env) (found : Option ChatRoom)
      → find_one env.room (λ r. r.user_id == user_id) st.rooms ≡ found
      → IsPrivate st
      → IsRoomOf user_id (room_or_new user_id st found)
  room_or_new-IsRoomOf user_id st (some r) found p = (
    p,
    env.room.find_latest-Holds _ _ st.rooms found,
    (==_iff r.user_id user_id).0 (env.room.find_latest_passes _ _ st.rooms found),
  )
  room_or_new-IsRoomOf user_id st none missing p =
      let r = new_room user_id st in
      (
        record {
          unique = λ x y h k e.
              new_room_unique user_id st x y p ((env.room.Holds-insert x r st.rooms).0 h)
                ((env.room.Holds-insert y r st.rooms).0 k) e;
          members = AllMembers-insert r st.rooms st.members p.members;
          deliveries = AllDeliveries-insert r st.rooms st.deliveries p.deliveries;
        },
        (env.room.Holds-insert r r st.rooms).1 (inl refl),
        refl,
      )

  pub get_or_create_room-IsRoomOf :
      (user_id : ℕ) (st : ChatState env)
      → IsPrivate st
      → IsRoomOf user_id (get_or_create_room user_id st)
  unfolding get_or_create_room
  get_or_create_room-IsRoomOf user_id st p =
      room_or_new-IsRoomOf user_id st (find_one env.room (λ r. r.user_id == user_id) st.rooms) refl
        p

  pub mark_as_read-IsPrivate :
      (room_id reader_id : ℕ) (st : ChatState env)
      → IsPrivate st
      → IsPrivate (mark_as_read room_id reader_id st)
  unfolding mark_as_read
  mark_as_read-IsPrivate room_id reader_id st p = record {
    unique = p.unique;
    members = p.members;
    deliveries = p.deliveries;
  }

  pub send_welcome_message-IsPrivate :
      (room_id : ℕ) (st : ChatState env)
      → IsPrivate st
      → IsPrivate (send_welcome_message room_id st)
  unfolding send_welcome_message
  send_welcome_message-IsPrivate room_id st p = post_if-IsPrivate _ room_id _ st p

  pub send_first_response-IsPrivate :
      (room_id user_id : ℕ) (st : ChatState env)
      → IsPrivate st
      → IsPrivate (send_first_response room_id user_id st)
  unfolding send_first_response
  send_first_response-IsPrivate room_id user_id st p = post_if-IsPrivate _ room_id _ st p
