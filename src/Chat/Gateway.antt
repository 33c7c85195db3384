-- ===== src/Chat/Gateway.antt =====
-- src/chat/chat.gateway.ts with src/chat/chat.service.ts: what a client's event does to the rooms, the messages
-- and the socket rooms, and which messages reach which client. Not modelled: the check of the token, the
-- attachments, the texts of errors and confirmations, and the end of a connection, which the library handles.
use esim_backend.Base.{
  ℕ, Bool, false, ◌||◌, Option, none, some, List, [], ◌∷◌, ◌++◌, ◌==◌, if◌then◌else◌,
}
use esim_backend.Base.Lists.{is_nil}
use esim_backend.Base.Text.{Text}
use esim_backend.Storage.Rows.{find_one}
use esim_backend.Chat.Data.{
  ChatRoom, ChatMessage, Client, is_admin, ChatEnv, ChatState, written, find_by_room_id,
  mark_room_as_read, broadcast, deliver_all, count_from, or_default, target_of, may_enter, join_all,
  last_messages,
}

module _ ⦃env : ChatEnv⦄ where
  unfoldable pub get_room_by_id : ℕ → ChatState env → Option ChatRoom
  get_room_by_id id st = find_one env.room (λ r. r.id == id) st.rooms

  abbrev pub new_room : ℕ → ChatState env → ChatRoom
  new_room user_id st = record { id = env.room.next_id st.rooms; user_id = user_id }

  abbrev pub room_or_new : ℕ → ChatState env → Option ChatRoom → ChatRoom × ChatState env
  room_or_new user_id st (some existing) = (existing, st)
  room_or_new user_id st none =
      (new_room user_id st, record st { rooms = env.room.insert (new_room user_id st) st.rooms })

  -- The room, with the state where it is created.
  unfoldable pub get_or_create_room : ℕ → ChatState env → ChatRoom × ChatState env
  get_or_create_room user_id st =
      room_or_new user_id st (find_one env.room (λ r. r.user_id == user_id) st.rooms)

  -- `chatService.sendMessage`, and the emission to the socket room.
  unfoldable pub post : ℕ → Option ℕ → Text → ChatState env → ChatState env
  unfolding broadcast
  post room_id sender_id text st =
      let message : ChatMessage = record {
        chat_room_id = room_id;
        sender_id = sender_id;
        message = text;
        is_read = false;
      } in
      record st {
        messages = message ∷ st.messages;
        deliveries = broadcast room_id message st.members ++ st.deliveries;
      }

  unfoldable pub post_if : Bool → ℕ → Option Text → ChatState env → ChatState env
  unfolding post
  post_if wanted room_id text st =
      if wanted then (elim (written text) [ none ↦ st | some t ↦ post room_id none t st ]) else st

  unfoldable pub send_welcome_message : ℕ → ChatState env → ChatState env
  unfolding post_if find_by_room_id
  send_welcome_message room_id st =
      post_if (is_nil (find_by_room_id room_id 1 1 st.messages)) room_id env.welcome_message st

  unfoldable pub send_first_response : ℕ → ℕ → ChatState env → ChatState env
  unfolding post_if find_by_room_id
  send_first_response room_id user_id st =
      post_if (count_from user_id (find_by_room_id room_id 1 10 st.messages) == 1) room_id
        env.first_response_message st

  unfoldable pub mark_as_read : ℕ → ℕ → ChatState env → ChatState env
  unfolding mark_room_as_read
  mark_as_read room_id reader_id st = record st {
    messages = mark_room_as_read room_id reader_id st.messages;
  }

  unfoldable pub handle_join_room : Client → Option ℕ → ChatState env → ChatState env
  unfolding get_or_create_room mark_as_read send_welcome_message
  handle_join_room client user_id st =
      let (room, st') = get_or_create_room (target_of client user_id) st in
      let joined =
        mark_as_read room.id client.user_id
          (record st' { members = record { client = client; room_id = room.id } ∷ st'.members }) in
      if is_admin client then joined else send_welcome_message room.id joined

  -- The part past the checks.
  unfoldable pub accept_message : Client → ℕ → Text → ChatState env → ChatState env
  unfolding post send_first_response
  accept_message client room_id text st =
      let sent = post room_id (some client.user_id) text st in
      if is_admin client then sent else send_first_response room_id client.user_id sent

  unfoldable pub handle_send_message : Client → ℕ → Text → ChatState env → ChatState env
  unfolding get_room_by_id accept_message
  handle_send_message client room_id text st =
      if room_id == 0 || is_nil text then st else elim (get_room_by_id room_id st) [
        | none ↦ st
        | some room ↦ if may_enter client room then accept_message client room_id text st else st
      ]

  unfoldable pub handle_get_messages :
      Client → ℕ → Option ℕ → Option ℕ → ChatState env → ChatState env
  unfolding get_room_by_id find_by_room_id deliver_all
  handle_get_messages client room_id page limit st =
      if room_id == 0 then st else elim (get_room_by_id room_id st) [
        | none ↦ st
        | some room ↦
            if may_enter client room
            then record st {
              deliveries =
                  deliver_all client
                    (find_by_room_id room_id (or_default page 1) (or_default limit 50) st.messages)
                  ++ st.deliveries;
            }
            else st
      ]

  unfoldable pub handle_mark_as_read : Client → ℕ → ChatState env → ChatState env
  unfolding mark_as_read
  handle_mark_as_read client room_id st =
      if room_id == 0 then st else mark_as_read room_id client.user_id st

  unfoldable pub handle_subscribe_all_rooms : Client → ChatState env → ChatState env
  handle_subscribe_all_rooms client st =
      if is_admin client
      then record st { members = join_all client (env.all_rooms st.rooms) st.members }
      else st

  unfoldable pub handle_get_rooms : Client → ChatState env → ChatState env
  unfolding deliver_all
  handle_get_rooms client st =
      if is_admin client
      then record st {
        deliveries =
            deliver_all client (last_messages (env.all_rooms st.rooms) st.messages)
            ++ st.deliveries;
      }
      else st

-- What a client sends.
pub data Event : Type 0 where
  join_room : Option ℕ → Event
  send_message : ℕ → Text → Event
  get_messages : ℕ → Option ℕ → Option ℕ → Event
  read_room : ℕ → Event
  subscribe_all_rooms get_rooms : Event

module _ ⦃env : ChatEnv⦄ where
  unfoldable pub handle : Client → Event → ChatState env → ChatState env
  handle client (Event.join_room user_id) st = handle_join_room client user_id st
  handle client (Event.send_message room_id text) st = handle_send_message client room_id text st
  handle client (Event.get_messages room_id page limit) st =
      handle_get_messages client room_id page limit st
  handle client (Event.read_room room_id) st = handle_mark_as_read client room_id st
  handle client Event.subscribe_all_rooms st = handle_subscribe_all_rooms client st
  handle client Event.get_rooms st = handle_get_rooms client st

  unfoldable pub handle_all : List (Client × Event) → ChatState env → ChatState env
  unfolding handle
  handle_all [] st = st
  handle_all ((client, event) ∷ events) st = handle_all events (handle client event st)
