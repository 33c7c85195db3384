-- ===== src/Chat/Tests.antt =====
-- A buyer and an admin in the chat, and a stranger that asks for its messages.
use esim_backend.Base.{◌≡◌, refl, none, some, List, [], ◌∷◌}
use esim_backend.Base.Lists.{length}
use esim_backend.Base.Text.{text}
use esim_backend.Storage.RowLists.{row_store}
use esim_backend.Chat.Data.{
  Client, ChatEnv, ChatState, broadcast, find_by_room_id, mark_room_as_read,
}
use esim_backend.Chat.Gateway.{
  get_room_by_id, get_or_create_room, post, post_if, mark_as_read, send_welcome_message,
  send_first_response, handle_join_room, accept_message, handle_send_message, handle_get_messages,
  handle_subscribe_all_rooms, Event, handle, handle_all,
}
use esim_backend.Chat.Readers.{IsPrivate}
use esim_backend.Chat.Events.{handle_all-IsPrivate}

instance abbrev desk : ChatEnv
desk = record {
  room = row_store λ r. r.id;
  all_rooms = λ rooms. rooms;
  welcome_message = some (text "Hello");
  first_response_message = some (text "One moment");
}

abbrev buyer : Client
buyer = record { socket = 1; user_id = 7; role_id = 2 }

abbrev admin : Client
admin = record { socket = 2; user_id = 1; role_id = 1 }

abbrev stranger : Client
stranger = record { socket = 3; user_id = 8; role_id = 2 }

abbrev new_chat : ChatState desk
new_chat = record { rooms = []; messages = []; members = []; deliveries = [] }

new_chat-IsPrivate : IsPrivate new_chat
new_chat-IsPrivate = record { unique = λ x y h k e. absurd h; members = tt; deliveries = tt }

-- The buyer gets the welcome message; the buyer's message and the first response reach buyer and admin.
abbrev talk : List (Client × Event)
talk =
    (buyer, Event.join_room (some 8))
    ∷ (admin, Event.subscribe_all_rooms)
    ∷ (buyer, Event.send_message 1 (text "Hi"))
    ∷ (stranger, Event.get_messages 1 none none)
    ∷ []

delivered : length ((handle_all talk new_chat).deliveries) ≡ 5
unfolding handle_all handle handle_join_room handle_subscribe_all_rooms handle_send_message
    handle_get_messages get_or_create_room mark_as_read mark_room_as_read send_welcome_message
    post_if post broadcast find_by_room_id get_room_by_id accept_message send_first_response length
delivered = refl

handle_all-IsPrivate_example : IsPrivate (handle_all talk new_chat)
handle_all-IsPrivate_example = handle_all-IsPrivate talk new_chat new_chat-IsPrivate
