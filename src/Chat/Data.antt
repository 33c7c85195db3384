-- ===== src/Chat/Data.antt =====
-- The rooms and the messages of src/chat, the sockets of its clients, and what a read of them returns
-- (chat-message.repository.ts). The messages stand in a list, the latest first. A client is a socket with the
-- user and the role of its token.
use esim_backend.Base.{
  ℕ, suc, ◌-◌, ◌*◌, Bool, true, false, not, ◌&&◌, ◌||◌, Option, none, some, List, [], ◌∷◌, ◌++◌,
  ◌==◌, if◌then◌else◌,
}
use esim_backend.Base.Lists.{take, drop}
use esim_backend.Base.Text.{Text}
use esim_backend.Storage.Rows.{RowStore}

pub record ChatRoom : Type 0 where
  pub id : ℕ
  pub user_id : ℕ

-- A message without a sender is the bot's.
pub record ChatMessage : Type 0 where
  pub chat_room_id : ℕ
  pub sender_id : Option ℕ
  pub message : Text
  pub is_read : Bool

pub record Client : Type 0 where
  pub socket : ℕ
  pub user_id : ℕ
  pub role_id : ℕ

abbrev pub is_admin : Client → Bool
is_admin client = client.role_id == 1

-- A client that has joined the socket room of a chat room.
pub record Member : Type 0 where
  pub client : Client
  pub room_id : ℕ

-- A message that was emitted to a client.
pub record Delivery : Type 0 where
  pub to : Client
  pub message : ChatMessage

-- The rooms' table, and the messages of the automations that are active.
pub record ChatEnv : Type 1 where
  pub room : RowStore ChatRoom λ r. r.id
  -- all rooms, by `updatedAt`
  pub all_rooms : room.Table → List ChatRoom
  pub welcome_message : Option Text
  pub first_response_message : Option Text

pub record ChatState (env : ChatEnv) : Type 0 where
  pub rooms : env.room.Table
  pub messages : List ChatMessage
  pub members : List Member
  pub deliveries : List Delivery

-- `if (!message) return`
abbrev pub written : Option Text → Option Text
written (some (c ∷ cs)) = some (c ∷ cs)
written _ = none

abbrev pub messages_of : ℕ → List ChatMessage → List ChatMessage
messages_of room_id [] = []
messages_of room_id (m ∷ ms) =
    let rest = messages_of room_id ms in if m.chat_room_id == room_id then m ∷ rest else rest

-- `findByRoomId`
unfoldable pub find_by_room_id : ℕ → ℕ → ℕ → List ChatMessage → List ChatMessage
find_by_room_id room_id page limit messages =
    take limit (drop ((page - 1) * limit) (messages_of room_id messages))

-- `senderId: Not(readerId)`: in SQL a message without a sender does not pass.
abbrev pub is_by_another : ℕ → ChatMessage → Bool
is_by_another reader_id m = elim m.sender_id [ none ↦ false | some s ↦ not (s == reader_id) ]

unfoldable pub mark_room_as_read : ℕ → ℕ → List ChatMessage → List ChatMessage
mark_room_as_read room_id reader_id [] = []
mark_room_as_read room_id reader_id (m ∷ ms) =
    (if m.chat_room_id == room_id && not m.is_read && is_by_another reader_id m
      then record m { is_read = true }
      else m)
    ∷ mark_room_as_read room_id reader_id ms

-- `server.to(room).emit('newMessage', message)`
unfoldable pub broadcast : ℕ → ChatMessage → List Member → List Delivery
broadcast room_id message [] = []
broadcast room_id message (m ∷ ms) =
    let rest = broadcast room_id message ms in
    if m.room_id == room_id then record { to = m.client; message = message } ∷ rest else rest

-- `client.emit('messages', …)`
unfoldable pub deliver_all : Client → List ChatMessage → List Delivery
deliver_all client [] = []
deliver_all client (m ∷ ms) = record { to = client; message = m } ∷ deliver_all client ms

abbrev pub is_from : ℕ → ChatMessage → Bool
is_from user_id m = elim m.sender_id [ none ↦ false | some s ↦ s == user_id ]

abbrev pub count_from : ℕ → List ChatMessage → ℕ
count_from user_id [] = 0
count_from user_id (m ∷ ms) =
    let n = count_from user_id ms in if is_from user_id m then suc n else n

abbrev pub first_message : List ChatMessage → List ChatMessage
first_message [] = []
first_message (m ∷ ms) = m ∷ []

-- `data.page || 1`
abbrev pub or_default : Option ℕ → ℕ → ℕ
or_default none default = default
or_default (some n) default = if n == 0 then default else n

-- `isAdmin && data?.userId`
abbrev pub target_of : Client → Option ℕ → ℕ
target_of client user_id =
    if is_admin client then or_default user_id client.user_id else client.user_id

abbrev pub may_enter : Client → ChatRoom → Bool
may_enter client room = is_admin client || room.user_id == client.user_id

abbrev pub join_all : Client → List ChatRoom → List Member → List Member
join_all client [] members = members
join_all client (r ∷ rs) members =
    record { client = client; room_id = r.id } ∷ join_all client rs members

-- The last message of each room.
abbrev pub last_messages : List ChatRoom → List ChatMessage → List ChatMessage
last_messages [] messages = []
last_messages (r ∷ rs) messages =
    first_message (messages_of r.id messages) ++ last_messages rs messages
