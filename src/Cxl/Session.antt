-- ===== src/Cxl/Session.antt =====
-- src/cxl: sequences of commands over the link from the host to the memory.
use vans.Base.{
  ℕ, suc, ◌≤◌, ◌≡◌, ◌≢◌, refl, ap, ◌∙◌, true, false, List, [], ◌∷◌, some, arith, ltb, ◌==◌, length,
  replicate, length-replicate,
}
use vans.Buffer.{lookup, update}
use vans.Buffer.Laws.{lookup-update}
use vans.Cxl.Protocol.{CommandType, CxlCommand, CxlResponse, issue_command, handle_command}
use vans.Cxl.Endpoints.{Link, set_response, receive_command, send_command, receive_response}
use vans.Cxl.Memory.{CxlMemory, take, overwrite, find_region}
use vans.Cxl.Memory

take-overwrite :
    (region bytes : List ℕ)
    → length bytes ≤ length region
    → take (length bytes) (overwrite region bytes) ≡ bytes
unfolding take overwrite
take-overwrite region [] h = refl
take-overwrite [] (b ∷ bytes) h = absurd (omega arith)
take-overwrite (r ∷ region) (b ∷ bytes) h = ap (◌∷◌ b) (take-overwrite region bytes (omega arith))

length-overwrite : (region bytes : List ℕ) → length (overwrite region bytes) ≡ length region
unfolding overwrite
length-overwrite region [] = refl
length-overwrite [] (b ∷ bytes) = refl
length-overwrite (r ∷ region) (b ∷ bytes) = ap suc (length-overwrite region bytes)

take_all : (bytes : List ℕ) → take (length bytes) bytes ≡ bytes
unfolding take
take_all [] = refl
take_all (b ∷ bytes) = ap (◌∷◌ b) (take_all bytes)

read_found :
    (address size : ℕ) (region : List ℕ) (m : CxlMemory)
    → lookup address m.memory ≡ some region
    → size ≤ length region
    → Memory.read address size m ≡ some (take size region)
unfolding Memory.read find_region
read_found address size region m h l =
    let fits : ltb (length region) size ≡ false = ground arith in
    rw (Memory.read, find_region, h, fits) refl

write_found :
    (address size : ℕ) (bytes region : List ℕ) (m : CxlMemory)
    → lookup address m.memory ≡ some region
    → size ≤ length region
    → Memory.write address bytes size m
      ≡ (true, record m { memory = update address (overwrite region (take size bytes)) m.memory })
unfolding Memory.write find_region
write_found address size bytes region m h l =
    let fits : ltb (length region) size ≡ false = ground arith in
    rw (Memory.write, find_region, h, fits) refl

-- Bytes that are written to a region that is long enough are read back.
pub read-write :
    (address : ℕ) (bytes region : List ℕ) (m : CxlMemory)
    → lookup address m.memory ≡ some region
    → length bytes ≤ length region
    → Memory.read address (length bytes) (Memory.write address bytes (length bytes) m).1
      ≡ some bytes
read-write address bytes region m h l =
    let size = length-overwrite region bytes in
    let after : lookup address (update address (overwrite region bytes) m.memory)
        ≡ some (overwrite region bytes) =
      ground (arith, lookup-update address address (overwrite region bytes) region m.memory h) in
    rw (write_found address (length bytes) bytes region m h l, take_all bytes)
      (read_found address (length bytes) (overwrite region bytes)
          (record m { memory = update address (overwrite region bytes) m.memory }) after
          (omega arith)
        ∙ ap some (take-overwrite region bytes l))

abbrev command : CommandType → ℕ → ℕ → List ℕ → CxlCommand
command type address size bytes = record {
  type = type;
  address = address;
  size = size;
  bytes = bytes;
}

-- The host allocates a region of `size` bytes, writes to the address that it was given, and reads.
unfoldable pub session : ℕ → List ℕ → Link → Link
session size bytes l =
    let address = l.memory.next_free_address in
    let l1 = (send_command (command CommandType.allocate 0 size []) l).1 in
    let l2 = (send_command (command CommandType.write address (length bytes) bytes) l1).1 in
    (send_command (command CommandType.read address (length bytes) []) l2).1

allocate_found :
    (size : ℕ) (m : CxlMemory)
    → lookup m.next_free_address (Memory.allocate size m).1.memory ≡ some (replicate size 0)
unfolding Memory.allocate lookup
allocate_found size m = ground arith

-- The link after a command of an attached host.
abbrev sent : CxlCommand → Link → Link
sent cmd l = record {
  host = set_response (issue_command cmd l.memory).0 l.host;
  memory = (issue_command cmd l.memory).1;
}

send-sent :
    (cmd : CxlCommand) (l : Link) → l.host.attached ≡ true → (send_command cmd l).1 ≡ sent cmd l
unfolding send_command receive_command
send-sent cmd l a = simp (a, send_command) refl

sent-attached : (cmd : CxlCommand) (l : Link) → (sent cmd l).host.attached ≡ l.host.attached
unfolding set_response
sent-attached cmd l = refl

issue_allocate :
    (size : ℕ) (m : CxlMemory)
    → m.next_free_address ≢ 0
    → (issue_command (command CommandType.allocate 0 size []) m).1 ≡ (Memory.allocate size m).1
unfolding issue_command Memory.allocate
issue_allocate size m h =
    let valid : (m.next_free_address == 0) ≡ false = ground arith in rw valid refl

issue_write :
    (address size : ℕ) (bytes : List ℕ) (m : CxlMemory)
    → (issue_command (command CommandType.write address size bytes) m).1
      ≡ (Memory.write address bytes size m).1
unfolding issue_command
issue_write address size bytes m = refl

issue_read :
    (address size : ℕ) (bytes : List ℕ) (m : CxlMemory)
    → Memory.read address size m ≡ some bytes
    → (issue_command (command CommandType.read address size []) m).0
      ≡ record { success = true; bytes = bytes }
unfolding issue_command
issue_read address size bytes m h = rw (issue_command, h) refl

received :
    (cmd : CxlCommand) (l : Link) (r : CxlResponse)
    → (issue_command cmd l.memory).0 ≡ r
    → (receive_response (sent cmd l)).0 ≡ some r
unfolding receive_response set_response
received cmd l r h = ap some h

-- A host that is attached allocates a region, writes no more bytes than it has, and reads them: the
-- response that it receives is a success with the bytes written.
pub session-received :
    (size : ℕ) (bytes : List ℕ) (l : Link)
    → l.host.attached ≡ true
    → l.memory.next_free_address ≢ 0
    → length bytes ≤ size
    → (receive_response (session size bytes l)).0 ≡ some (record { success = true; bytes = bytes })
unfolding session
session-received size bytes l a h fits =
    let address = l.memory.next_free_address in
    let c1 = command CommandType.allocate 0 size [] in
    let c2 = command CommandType.write address (length bytes) bytes in
    let c3 = command CommandType.read address (length bytes) [] in
    let s1 = send-sent c1 l a in
    let s2 = send-sent c2 (sent c1 l) (sent-attached c1 l ∙ a) in
    let s3 =
      send-sent c3 (sent c2 (sent c1 l)) (sent-attached c2 (sent c1 l) ∙ sent-attached c1 l ∙ a) in
    ap (λ x. (receive_response (send_command c3 (send_command c2 x).1).1).0) s1
    ∙ ap (λ x. (receive_response (send_command c3 x).1).0) s2
    ∙ ap (λ x. (receive_response x).0) s3
    ∙ received c3 (sent c2 (sent c1 l)) _ (
        issue_read address (length bytes) bytes _ (
          ap (λ m. Memory.read address (length bytes) m) two
          ∙ read-write address bytes (replicate size 0) (Memory.allocate size l.memory).1
              (allocate_found size l.memory) (omega (arith, length-replicate {A = ℕ} size 0))))
  where
    two :
        (sent
          (command CommandType.write l.memory.next_free_address (length bytes) bytes)
          (sent (command CommandType.allocate 0 size []) l)).memory
        ≡ (Memory.write l.memory.next_free_address bytes
            (length bytes)
            (Memory.allocate size l.memory).1).1
    two =
        issue_write l.memory.next_free_address (length bytes) bytes _
        ∙ ap (λ m. (Memory.write l.memory.next_free_address bytes (length bytes) m).1)
            (issue_allocate size l.memory h)

-- Where the protocol handler reports a success, the command processor gives the same response and
-- leaves the same memory for the command.
pub handle_command-issue_command :
    (cmd : CxlCommand) (m : CxlMemory)
    → (issue_command cmd m).0.success ≡ true
    → handle_command cmd m ≡ issue_command cmd m
unfolding handle_command issue_command
handle_command-issue_command cmd m h = ground arith
