-- ===== src/Server/Slots.antt =====
-- The array of connections, as `EventServer` changes it.
use chat_service_socket_cpp.Common.{
  ℕ, zero, suc, ◌+◌, ◌-◌, ◌≤◌, ◌<◌, ◌≡◌, true, false, arith, ◌==◌, if◌then◌else◌, ◌∷◌, txt,
}
use chat_service_socket_cpp.Common.Int.{ℤ, is_neg}
use chat_service_socket_cpp.Server.State.{sent_text}
use chat_service_socket_cpp.Server.Poll.{Server, Ready, poll_size, free_slot, event_server, set_at}

-- The search stops at the first free entry, or behind the last.
pub free_slot_lem :
    (fds : ℕ → ℤ) (k i : ℕ)
    → (i ≤ free_slot fds k i)
      × (free_slot fds k i ≤ i + k)
      × ((j : ℕ) → i ≤ j → j < free_slot fds k i → is_neg (fds j) ≡ false)
      × (free_slot fds k i < i + k → is_neg (fds (free_slot fds k i)) ≡ true)
unfolding free_slot
free_slot_lem fds zero i = (
  omega arith,
  omega arith,
  λ j p q. absurd (omega (arith, p, q)),
  λ p. absurd (omega (arith, p)),
)
free_slot_lem fds (suc k) i =
    let ih = free_slot_lem fds k (i + 1) in
    (
      ground (arith, ih.0),
      ground (arith, ih.0, ih.1),
      λ j p q. ground (arith, p, q, ih.2 j),
      λ p. ground (arith, p, ih.3),
    )

-- If `i` is the first free entry from 1 to 34 and the largest entry in use lies within the array, a
-- new connection takes the entry `i`, every other entry `j` stays, `i` is in use, the largest entry
-- in use still lies within the array, and users, rooms, tables and output stay.
pub event_server-free :
    (r : Ready) (s : Server) (i j : ℕ)
    → r.revents 0 ≡ true
    → 1 ≤ i
    → i < poll_size
    → is_neg (s.fds i) ≡ true
    → ((j : ℕ) → 1 ≤ j → j < i → is_neg (s.fds j) ≡ false)
    → s.maxi < poll_size
    → ((event_server r s).fds j ≡ (if j == i then r.connfd else s.fds j))
      × (i ≤ (event_server r s).maxi)
      × ((event_server r s).maxi < poll_size)
      × ((event_server r s).world ≡ s.world)
unfolding event_server set_at
event_server-free r s i j ready low high free taken within =
    let lem = free_slot_lem s.fds (poll_size - 1) 1 in
    let at : free_slot s.fds (poll_size - 1) 1 ≡ i = ground (
      arith,
      low,
      high,
      free,
      lem.0,
      lem.1,
      lem.2 i,
      lem.3,
      taken (free_slot s.fds (poll_size - 1) 1),
    ) in
    (ground (arith, at), ground (arith, at), ground (arith, at, within), ground (arith, at))

-- With no free entry from 1 to 34, a new client gets a text and no entry, but `events` is set at the
-- index 35, behind the array, and the largest entry in use becomes at least 35.
pub event_server-full :
    (r : Ready) (s : Server)
    → r.revents 0 ≡ true
    → ((j : ℕ) → 1 ≤ j → j < poll_size → is_neg (s.fds j) ≡ false)
    → ((event_server r s).events poll_size ≡ true)
      × (poll_size ≤ (event_server r s).maxi)
      × ((event_server r s).fds ≡ s.fds)
      × ((event_server r s).world.out ≡ sent_text r.connfd (txt "too many client") ∷ s.world.out)
unfolding event_server set_at
event_server-full r s ready full =
    let lem = free_slot_lem s.fds (poll_size - 1) 1 in
    let at : free_slot s.fds (poll_size - 1) 1 ≡ poll_size =
      ground (arith, lem.0, lem.1, lem.3, full (free_slot s.fds (poll_size - 1) 1)) in
    (ground (arith, at), ground (arith, at), ground (arith, at), ground (arith, at))
