-- ===== src/Chat/Events.antt =====
-- The events of the gateway, one after another.
use esim_backend.Base.{
  ℕ, ◌≡◌, refl, subst, inl, inr, Bool, true, false, ◌||◌, Option, some, List, [], ◌∷◌, ◌++◌, ◌==◌,
  ==_iff, Bool-cases, Option-cases, if◌then◌else◌,
}
use esim_backend.Base.Lists.{is_nil}
use esim_backend.Base.Text.{Text}
use esim_backend.Chat.Data.{
  ChatRoom, Client, is_admin, Member, Delivery, ChatEnv, ChatState, find_by_room_id, or_default,
  target_of, may_enter,
}
use esim_backend.Chat.Readers.{
  messages_of-AreOf, drop-AreOf, take-AreOf, MayRead, AllDeliveries, IsPrivate,
  AllDeliveries-append, deliver_all-AllDeliveries, deliver_to_admin, join_all-AllMembers,
}
use esim_backend.Chat.Gateway.{
  get_room_by_id, get_or_create_room, handle_join_room, accept_message, handle_send_message,
  handle_get_messages, handle_mark_as_read, handle_subscribe_all_rooms, handle_get_rooms, Event,
  handle, handle_all,
}
use esim_backend.Chat.Private.{
  post-IsPrivate, IsRoomOf, get_or_create_room-IsRoomOf, mark_as_read-IsPrivate,
  send_welcome_message-IsPrivate, send_first_response-IsPrivate,
}

module _ ⦃env : ChatEnv⦄ where
  may_join :
      (client : Client) (user_id : Option ℕ) (room : ChatRoom) (st : ChatState env)
      → IsRoomOf (target_of client user_id) (room, st)
      → MayRead st.rooms client room.id
  may_join client user_id room st (p, row, own) = elim (Bool-cases (is_admin client)) [
    | inl admin ↦ inl admin
    | inr buyer ↦ inr (
      room,
      row,
      refl,
      subst (λ b. room.user_id ≡ (if b then or_default user_id client.user_id else client.user_id))
          buyer own,
    )
  ]

  add_member-IsPrivate :
      (m : Member) (st : ChatState env)
      → MayRead st.rooms m.client m.room_id
      → IsPrivate st
      → IsPrivate (record st { members = m ∷ st.members })
  add_member-IsPrivate m st may p = record {
    unique = p.unique;
    members = (may, p.members);
    deliveries = p.deliveries;
  }

  emit-IsPrivate :
      (xs : List Delivery) (st : ChatState env)
      → AllDeliveries st.rooms xs
      → IsPrivate st
      → IsPrivate (record st { deliveries = xs ++ st.deliveries })
  emit-IsPrivate xs st may p = record {
    unique = p.unique;
    members = p.members;
    deliveries = AllDeliveries-append st.rooms xs st.deliveries may p.deliveries;
  }

  either-IsPrivate :
      (b : Bool) (st st' : ChatState env)
      → IsPrivate st
      → IsPrivate st'
      → IsPrivate (if b then st else st')
  either-IsPrivate true st st' p p' = p
  either-IsPrivate false st st' p p' = p'

  handle_join_room-IsPrivate :
      (client : Client) (user_id : Option ℕ) (st : ChatState env)
      → IsPrivate st
      → IsPrivate (handle_join_room client user_id st)
  unfolding handle_join_room
  handle_join_room-IsPrivate client user_id st p =
      let found = get_or_create_room-IsRoomOf (target_of client user_id) st p in
      let got = get_or_create_room (target_of client user_id) st in
      let joined = mark_as_read-IsPrivate got.0.id client.user_id _ (
        add_member-IsPrivate (record { client = client; room_id = got.0.id }) got.1
          (may_join client user_id got.0 got.1 found) found.0) in
      either-IsPrivate (is_admin client) _ _ joined
        (send_welcome_message-IsPrivate got.0.id _ joined)

  accept_message-IsPrivate :
      (client : Client) (room_id : ℕ) (text : Text) (st : ChatState env)
      → IsPrivate st
      → IsPrivate (accept_message client room_id text st)
  unfolding accept_message
  accept_message-IsPrivate client room_id text st p =
      let sent = post-IsPrivate room_id (some client.user_id) text st p in
      either-IsPrivate (is_admin client) _ _ sent
        (send_first_response-IsPrivate room_id client.user_id _ sent)

  handle_send_message-IsPrivate :
      (client : Client) (room_id : ℕ) (text : Text) (st : ChatState env)
      → IsPrivate st
      → IsPrivate (handle_send_message client room_id text st)
  unfolding handle_send_message
  handle_send_message-IsPrivate client room_id text st p =
      elim (Bool-cases (room_id == 0 || is_nil text)) [
        | inl bad ↦ rw bad p
        | inr good ↦ rw good (elim (Option-cases (get_room_by_id room_id st)) [
          | inl missing ↦ rw missing p
          | inr (room, found) ↦ rw found (elim (Bool-cases (may_enter client room)) [
            | inl may ↦ rw may (accept_message-IsPrivate client room_id text st p)
            | inr not_allowed ↦ rw not_allowed p
          ])
        ])
      ]

  -- The gate of a read.
  may_enter-MayRead :
      (client : Client) (room_id : ℕ) (room : ChatRoom) (st : ChatState env)
      → get_room_by_id room_id st ≡ some room
      → may_enter client room ≡ true
      → MayRead st.rooms client room_id
  unfolding get_room_by_id
  may_enter-MayRead client room_id room st found may = elim (Bool-cases (is_admin client)) [
    | inl admin ↦ inl admin
    | inr buyer ↦ inr (
      room,
      env.room.find_latest-Holds _ _ st.rooms found,
      (==_iff room.id room_id).0 (env.room.find_latest_passes _ _ st.rooms found),
      (==_iff room.user_id client.user_id).0
          (subst (λ b. (b || room.user_id == client.user_id) ≡ true) buyer may),
    )
  ]

  handle_get_messages-IsPrivate :
      (client : Client) (room_id : ℕ) (page limit : Option ℕ) (st : ChatState env)
      → IsPrivate st
      → IsPrivate (handle_get_messages client room_id page limit st)
  unfolding handle_get_messages find_by_room_id
  handle_get_messages-IsPrivate client room_id page limit st p = elim (Bool-cases (room_id == 0)) [
    | inl bad ↦ rw bad p
    | inr good ↦ rw good (elim (Option-cases (get_room_by_id room_id st)) [
      | inl missing ↦ rw missing p
      | inr (room, found) ↦ rw found (elim (Bool-cases (may_enter client room)) [
        | inl may ↦ rw may (
            emit-IsPrivate _ st
              (deliver_all-AllDeliveries st.rooms client room_id _
                (take-AreOf room_id _ _
                  (drop-AreOf room_id _ _ (messages_of-AreOf room_id st.messages)))
                (may_enter-MayRead client room_id room st found may))
              p)
        | inr not_allowed ↦ rw not_allowed p
      ])
    ])
  ]

  handle_mark_as_read-IsPrivate :
      (client : Client) (room_id : ℕ) (st : ChatState env)
      → IsPrivate st
      → IsPrivate (handle_mark_as_read client room_id st)
  unfolding handle_mark_as_read
  handle_mark_as_read-IsPrivate client room_id st p =
      either-IsPrivate (room_id == 0) _ _ p (mark_as_read-IsPrivate room_id client.user_id st p)

  handle_subscribe_all_rooms-IsPrivate :
      (client : Client) (st : ChatState env)
      → IsPrivate st
      → IsPrivate (handle_subscribe_all_rooms client st)
  unfolding handle_subscribe_all_rooms
  handle_subscribe_all_rooms-IsPrivate client st p = elim (Bool-cases (is_admin client)) [
    | inl admin ↦ rw admin (record {
      unique = p.unique;
      members = join_all-AllMembers st.rooms client _ st.members admin p.members;
      deliveries = p.deliveries;
    })
    | inr buyer ↦ rw buyer p
  ]

  handle_get_rooms-IsPrivate :
      (client : Client) (st : ChatState env) → IsPrivate st → IsPrivate (handle_get_rooms client st)
  unfolding handle_get_rooms
  handle_get_rooms-IsPrivate client st p = elim (Bool-cases (is_admin client)) [
    | inl admin ↦ rw admin (emit-IsPrivate _ st (deliver_to_admin st.rooms client _ admin) p)
    | inr buyer ↦ rw buyer p
  ]

  handle-IsPrivate :
      (client : Client) (event : Event) (st : ChatState env)
      → IsPrivate st
      → IsPrivate (handle client event st)
  unfolding handle
  handle-IsPrivate client (Event.join_room user_id) st p =
      handle_join_room-IsPrivate client user_id st p
  handle-IsPrivate client (Event.send_message room_id text) st p =
      handle_send_message-IsPrivate client room_id text st p
  handle-IsPrivate client (Event.get_messages room_id page limit) st p =
      handle_get_messages-IsPrivate client room_id page limit st p
  handle-IsPrivate client (Event.read_room room_id) st p =
      handle_mark_as_read-IsPrivate client room_id st p
  handle-IsPrivate client Event.subscribe_all_rooms st p =
      handle_subscribe_all_rooms-IsPrivate client st p
  handle-IsPrivate client Event.get_rooms st p = handle_get_rooms-IsPrivate client st p

  -- Whatever clients send to the gateway, one event at a time, a chat in which every member of a socket room
  -- and every client that has got a message is an admin or the owner of the room remains such a chat.
  pub handle_all-IsPrivate :
      (events : List (Client × Event)) (st : ChatState env)
      → IsPrivate st
      → IsPrivate (handle_all events st)
  unfolding handle_all
  handle_all-IsPrivate [] st p = p
  handle_all-IsPrivate ((client, event) ∷ events) st p =
      handle_all-IsPrivate events (handle client event st) (handle-IsPrivate client event st p)
