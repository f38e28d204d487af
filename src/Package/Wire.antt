-- ===== src/Package/Wire.antt =====
-- Packages on a connection. `write` sends the bytes of a `package`, of which the connection keeps only
-- the order; `read` in `Execute` and `recv` in `doRecieving` put as many bytes as there are into a
-- package whose other bytes are what the memory held.
use chat_service_socket_cpp.Common.{
  ℕ, zero, suc, ◌+◌, ◌-◌, ◌/◌, ◌≡◌, ◌≤◌, ◌<◌, refl, arith, List, [], ◌∷◌, ap, ◌∙◌, ltb,
  if◌then◌else◌, length,
}
use chat_service_socket_cpp.Env.{Env}
use chat_service_socket_cpp.Memory.{Memory, poke, write_word, read_word}
use chat_service_socket_cpp.Memory.Words.{Fits, read_word-write_word}
use chat_service_socket_cpp.Package.{
  EType, Package, unknown, code, size_message, nowork, loginn, withh, joinn, send_mess,
  login_success, login_fail, with_success, with_fail, join_success, join_fail, send_success,
  send_fail, terminate_chat, fail_terminate, success_terminate, show_room, all_room, show_users,
  create_user, create_success, create_fail, modify_user, modify_success, modify_fail, create_room,
  modify_room, get_roles, show_roles, delete_user, delete_success, delete_fail, delete_room,
  getuser, finduser, onlineuser, offlineuser, checkparty,
}
use chat_service_socket_cpp.Package.Layout.{server_types}

-- The type with a number: an enumerator, or a value behind them.
unfoldable pub type_at : List EType → ℕ → EType
type_at [] n = unknown n
type_at (t ∷ ts) zero = t
type_at (t ∷ ts) (suc n) = type_at ts n

unfoldable pub type_of : ℕ → EType
unfolding type_at server_types
type_of n = type_at server_types n

-- sizeof(package): the type, four bytes that nothing uses, and the union at a multiple of 8.
unfoldable pub package_size : Env → ℕ
package_size e = 8 + size_message e

-- The bytes of a package, where `pad` lies between its members.
unfoldable pub image : Memory → Package → Memory
unfolding write_word code
image pad p = write_word 4 0 (code p.type) (λ i. if ltb i 8 then pad i else p.message (i - 8))

-- What a connection carries when packages are written to it, and then other bytes.
unfoldable pub written : Env → Memory → List Package → Memory → Memory
unfolding image package_size
written e pad [] rest i = rest i
written e pad (p ∷ ps) rest i =
    let later = written e pad ps rest (i - package_size e) in
    if ltb i (package_size e) then image pad p i else later

-- package pk; read(sockfd, &pk, sizeof(package)), when it gives `k` bytes.
unfoldable pub read_package : Memory → ℕ → Memory → Package
unfolding type_of read_word
read_package junk k s =
    let bytes : Memory = λ i. if ltb i k then s i else junk i in
    record { type = type_of (read_word 4 0 bytes); message = λ i. bytes (8 + i) }

-- Reads one after the other.
unfoldable pub read_packages : Memory → List ℕ → Memory → List Package
unfolding read_package
read_packages junk [] s = []
read_packages junk (k ∷ ks) s = read_package junk k s ∷ read_packages junk ks (λ i. s (k + i))

-- The packages are the same to whoever reads their fields: type and all bytes of the union.
pub record Agrees (e : Env) (p q : Package) : Type 0 where
  pub type : p.type ≡ q.type
  pub bytes : (i : ℕ) → i < size_message e → p.message i ≡ q.message i

write_word_behind : (k o w a : ℕ) (m : Memory) → o + k ≤ a → write_word k o w m a ≡ m a
unfolding write_word poke
write_word_behind zero o w a m h = refl
write_word_behind (suc k) o w a m h =
    ground (arith, write_word_behind k (o + 1) (w / 256) a m (omega arith))

read_word_agrees :
    (k o q : ℕ) (m n : Memory)
    → ((i : ℕ) → i < k → m (o + i) ≡ n (q + i))
    → read_word k o m ≡ read_word k q n
unfolding read_word
read_word_agrees zero o q m n h = refl
read_word_agrees (suc k) o q m n h =
    let first : m o ≡ n q = ap m (omega arith) ∙ h 0 (omega arith) ∙ ap n (omega arith) in
    let rest =
      read_word_agrees k (o + 1) (q + 1) m n
        (λ i l. ap m (omega arith) ∙ h (i + 1) (omega (arith, l)) ∙ ap n (omega arith)) in
    ground (arith, rest, first)

type_at_behind : (ts : List EType) (n m : ℕ) → m ≡ length ts + n → type_at ts m ≡ unknown n
unfolding type_at
type_at_behind [] n m h = ap unknown (omega (arith, h))
type_at_behind (t ∷ ts) n zero h = ground (arith, h)
type_at_behind (t ∷ ts) n (suc m) h = type_at_behind ts n m (omega (arith, h))

type_of-code : (t : EType) → type_of (code t) ≡ t
unfolding type_of code type_at server_types
type_of-code nowork = refl
type_of-code loginn = refl
type_of-code withh = refl
type_of-code joinn = refl
type_of-code send_mess = refl
type_of-code login_success = refl
type_of-code login_fail = refl
type_of-code with_success = refl
type_of-code with_fail = refl
type_of-code join_success = refl
type_of-code join_fail = refl
type_of-code send_success = refl
type_of-code send_fail = refl
type_of-code terminate_chat = refl
type_of-code fail_terminate = refl
type_of-code success_terminate = refl
type_of-code show_room = refl
type_of-code all_room = refl
type_of-code show_users = refl
type_of-code create_user = refl
type_of-code create_success = refl
type_of-code create_fail = refl
type_of-code modify_user = refl
type_of-code modify_success = refl
type_of-code modify_fail = refl
type_of-code create_room = refl
type_of-code modify_room = refl
type_of-code get_roles = refl
type_of-code show_roles = refl
type_of-code delete_user = refl
type_of-code delete_success = refl
type_of-code delete_fail = refl
type_of-code delete_room = refl
type_of-code getuser = refl
type_of-code finduser = refl
type_of-code onlineuser = refl
type_of-code offlineuser = refl
type_of-code checkparty = refl
type_of-code (unknown n) = type_at_behind server_types n (38 + n) refl

image_type :
    (pad : Memory) (p : Package) → Fits 4 (code p.type) → read_word 4 0 (image pad p) ≡ code p.type
unfolding image
image_type pad p h =
    read_word-write_word 4 0 (code p.type) (λ i. if ltb i 8 then pad i else p.message (i - 8)) h

image_message : (pad : Memory) (p : Package) (i : ℕ) → image pad p (8 + i) ≡ p.message i
unfolding image
image_message pad p i =
    write_word_behind 4 0 (code p.type) (8 + i) (λ i. if ltb i 8 then pad i else p.message (i - 8))
      (omega arith)
    ∙ ground arith

-- One read of a whole package.
read_package-image :
    (e : Env) (junk pad s : Memory) (p : Package)
    → Fits 4 (code p.type)
    → ((i : ℕ) → i < package_size e → s i ≡ image pad p i)
    → Agrees e (read_package junk (package_size e) s) p
unfolding read_package package_size
read_package-image e junk pad s p f h =
    let bytes : Memory = λ i. if ltb i (package_size e) then s i else junk i in
    let same : (i : ℕ) → i < package_size e → bytes i ≡ image pad p i =
      λ i l. ground (arith, l, h i l) in
    record {
      type =
          ap type_of (
            read_word_agrees 4 0 0 bytes (image pad p) (λ i u. same (0 + i) (omega (arith, u)))
            ∙ image_type pad p f)
          ∙ type_of-code p.type;
      bytes = λ i l. same (8 + i) (omega (arith, l)) ∙ image_message pad p i;
    }

written_first :
    (e : Env) (pad : Memory) (p : Package) (ps : List Package) (rest : Memory) (i : ℕ)
    → i < package_size e
    → written e pad (p ∷ ps) rest i ≡ image pad p i
unfolding written
written_first e pad p ps rest i h = ground (arith, h)

-- A short read tears the package apart. If the first read behind the start of a package gives `k`
-- bytes of it, at least the type and at least 4 bytes short, and the next gives 4 or more, then the first
-- package that is handled has the type that was written, and behind these bytes what the memory held
-- before; the second has as its type the four bytes of the union that stood where the first read ended.
pub read_packages-short :
    (e : Env) (junk pad rest : Memory) (p : Package) (ps : List Package) (k n : ℕ)
    → Fits 4 (code p.type)
    → 8 ≤ k
    → k + 4 ≤ package_size e
    → 4 ≤ n
    → let s = written e pad (p ∷ ps) rest in
      let first = read_package junk k s in
      let second = read_package junk n (λ i. s (k + i)) in
      (read_packages junk (k ∷ n ∷ []) s ≡ first ∷ second ∷ [])
      × (first.type ≡ p.type)
      × ((i : ℕ) → k ≤ 8 + i → first.message i ≡ junk (8 + i))
      × (second.type ≡ type_of (read_word 4 (k - 8) p.message))
unfolding read_packages read_package
read_packages-short e junk pad rest p ps k n f l u m =
    let s = written e pad (p ∷ ps) rest in
    let at : (i : ℕ) → i < package_size e → s i ≡ image pad p i =
      λ i h. written_first e pad p ps rest i h in
    let bytes : Memory = λ i. if ltb i k then s i else junk i in
    let next : Memory = λ i. if ltb i n then s (k + i) else junk i in
    let one : (i : ℕ) → i < 4 → bytes i ≡ image pad p i =
      λ i h. ground (arith, h, at i (omega (arith, h))) in
    let two : (i : ℕ) → i < 4 → next i ≡ p.message ((k - 8) + i) = λ i h.
      let place : k + i ≡ 8 + ((k - 8) + i) = omega (arith, l) in
      let byte =
        at (k + i) (omega (arith, h, u))
        ∙ ap (image pad p) place
        ∙ image_message pad p ((k - 8) + i) in
      ground (arith, h, m, byte) in
    (
      refl,
      ap type_of (
            read_word_agrees 4 0 0 bytes (image pad p) (λ i b. one (0 + i) (omega (arith, b)))
            ∙ image_type pad p f)
          ∙ type_of-code p.type,
      λ i h. ground (arith, h),
      ap type_of (
          read_word_agrees 4 0 (k - 8) next p.message
            (λ i h. let start : 0 + i ≡ i = omega arith in ap next start ∙ two i h)),
    )

-- A read of a whole package gives what was written first.
pub read_package-written :
    (e : Env) (junk pad rest : Memory) (p : Package) (ps : List Package)
    → Fits 4 (code p.type)
    → Agrees e (read_package junk (package_size e) (written e pad (p ∷ ps) rest)) p
read_package-written e junk pad rest p ps f =
    read_package-image e junk pad (written e pad (p ∷ ps) rest) p f
      (λ i l. written_first e pad p ps rest i l)
