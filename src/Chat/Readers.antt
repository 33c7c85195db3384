-- ===== src/Chat/Readers.antt =====
-- Who may read a room, and that joining a room and emitting its messages keep to it.
use esim_backend.Base.{
  ℕ, ◌≡◌, sym, subst, zero, suc, ◌∙◌, ◌⊎◌, inl, inr, true, List, [], ◌∷◌, ◌++◌, ◌==◌, ==_iff,
  Bool-cases,
}
use esim_backend.Base.Lists.{take, drop}
use esim_backend.Chat.Data.{
  ChatRoom, ChatMessage, Client, is_admin, Member, Delivery, ChatEnv, ChatState, messages_of,
  broadcast, deliver_all, join_all,
}

-- Messages of one room, for whoever may read it.
unfoldable pub AreOf : ℕ → List ChatMessage → Type 0
AreOf room_id [] = Unit {0}
AreOf room_id (m ∷ ms) = (m.chat_room_id ≡ room_id) × AreOf room_id ms

pub messages_of-AreOf :
    (room_id : ℕ) (ms : List ChatMessage) → AreOf room_id (messages_of room_id ms)
unfolding AreOf
messages_of-AreOf room_id [] = tt
messages_of-AreOf room_id (m ∷ ms) = elim (Bool-cases (m.chat_room_id == room_id)) [
  | inl here ↦ rw here ((==_iff m.chat_room_id room_id).0 here, messages_of-AreOf room_id ms)
  | inr other ↦ rw other (messages_of-AreOf room_id ms)
]

pub drop-AreOf :
    (room_id n : ℕ) (ms : List ChatMessage) → AreOf room_id ms → AreOf room_id (drop n ms)
unfolding AreOf
drop-AreOf room_id zero ms h = h
drop-AreOf room_id (suc n) [] h = tt
drop-AreOf room_id (suc n) (m ∷ ms) (e, h) = drop-AreOf room_id n ms h

pub take-AreOf :
    (room_id n : ℕ) (ms : List ChatMessage) → AreOf room_id ms → AreOf room_id (take n ms)
unfolding AreOf
take-AreOf room_id zero ms h = tt
take-AreOf room_id (suc n) [] h = tt
take-AreOf room_id (suc n) (m ∷ ms) (e, h) = (e, take-AreOf room_id n ms h)

module _ ⦃env : ChatEnv⦄ where
  -- The client is an admin, or the room is the client's own.
  abbrev pub MayRead : env.room.Table → Client → ℕ → Type 0
  MayRead rooms client room_id =
      (is_admin client ≡ true)
      ⊎ ((r : ChatRoom) × env.room.Holds r rooms × (r.id ≡ room_id) × (r.user_id ≡ client.user_id))

  abbrev pub AllMembers : env.room.Table → List Member → Type 0
  AllMembers rooms [] = Unit {0}
  AllMembers rooms (m ∷ ms) = MayRead rooms m.client m.room_id × AllMembers rooms ms

  abbrev pub AllDeliveries : env.room.Table → List Delivery → Type 0
  AllDeliveries rooms [] = Unit {0}
  AllDeliveries rooms (x ∷ xs) = MayRead rooms x.to x.message.chat_room_id × AllDeliveries rooms xs

  -- Ids of rooms are unique; whoever is in a socket room, or has got a message, may read the room.
  pub record IsPrivate (st : ChatState env) : Type 0 where
    pub unique :
        (x y : ChatRoom)
        → env.room.Holds x st.rooms
        → env.room.Holds y st.rooms
        → x.id ≡ y.id
        → x ≡ y
    pub members : AllMembers st.rooms st.members
    pub deliveries : AllDeliveries st.rooms st.deliveries

  module _ (rooms : env.room.Table) where
    pub AllDeliveries-append :
        (xs ys : List Delivery)
        → AllDeliveries rooms xs
        → AllDeliveries rooms ys
        → AllDeliveries rooms (xs ++ ys)
    AllDeliveries-append [] ys h k = k
    AllDeliveries-append (x ∷ xs) ys (h, hs) k = (h, AllDeliveries-append xs ys hs k)

    pub broadcast-AllDeliveries :
        (room_id : ℕ) (message : ChatMessage) (ms : List Member)
        → message.chat_room_id ≡ room_id
        → AllMembers rooms ms
        → AllDeliveries rooms (broadcast room_id message ms)
    unfolding broadcast
    broadcast-AllDeliveries room_id message [] e h = tt
    broadcast-AllDeliveries room_id message (m ∷ ms) e (h, hs) =
        elim (Bool-cases (m.room_id == room_id)) [
          | inl here ↦
              let same = (==_iff m.room_id room_id).0 here ∙ sym e in
              rw here (
                subst (MayRead rooms m.client) same h,
                broadcast-AllDeliveries room_id message ms e hs,
              )
          | inr other ↦ rw other (broadcast-AllDeliveries room_id message ms e hs)
        ]

    pub deliver_all-AllDeliveries :
        (client : Client) (room_id : ℕ) (ms : List ChatMessage)
        → AreOf room_id ms
        → MayRead rooms client room_id
        → AllDeliveries rooms (deliver_all client ms)
    unfolding deliver_all AreOf
    deliver_all-AllDeliveries client room_id [] of may = tt
    deliver_all-AllDeliveries client room_id (m ∷ ms) (e, of) may = (
      subst (MayRead rooms client) (sym e) may,
      deliver_all-AllDeliveries client room_id ms of may,
    )

    pub deliver_to_admin :
        (client : Client) (ms : List ChatMessage)
        → is_admin client ≡ true
        → AllDeliveries rooms (deliver_all client ms)
    unfolding deliver_all
    deliver_to_admin client [] admin = tt
    deliver_to_admin client (m ∷ ms) admin = (inl admin, deliver_to_admin client ms admin)

    pub join_all-AllMembers :
        (client : Client) (rs : List ChatRoom) (ms : List Member)
        → is_admin client ≡ true
        → AllMembers rooms ms
        → AllMembers rooms (join_all client rs ms)
    join_all-AllMembers client [] ms admin h = h
    join_all-AllMembers client (r ∷ rs) ms admin h =
        (inl admin, join_all-AllMembers client rs ms admin h)

  pub MayRead-insert :
      (r : ChatRoom) (rooms : env.room.Table) (client : Client) (room_id : ℕ)
      → MayRead rooms client room_id
      → MayRead (env.room.insert r rooms) client room_id
  MayRead-insert r rooms client room_id (inl admin) = inl admin
  MayRead-insert r rooms client room_id (inr (x, row, e, own)) =
      inr (x, (env.room.Holds-insert x r rooms).1 (inr row), e, own)

  pub AllMembers-insert :
      (r : ChatRoom) (rooms : env.room.Table) (ms : List Member)
      → AllMembers rooms ms
      → AllMembers (env.room.insert r rooms) ms
  AllMembers-insert r rooms [] h = tt
  AllMembers-insert r rooms (m ∷ ms) (h, hs) =
      (MayRead-insert r rooms m.client m.room_id h, AllMembers-insert r rooms ms hs)

  pub AllDeliveries-insert :
      (r : ChatRoom) (rooms : env.room.Table) (xs : List Delivery)
      → AllDeliveries rooms xs
      → AllDeliveries (env.room.insert r rooms) xs
  AllDeliveries-insert r rooms [] h = tt
  AllDeliveries-insert r rooms (x ∷ xs) (h, hs) =
      (MayRead-insert r rooms x.to x.message.chat_room_id h, AllDeliveries-insert r rooms xs hs)
