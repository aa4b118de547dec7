-- ===== src/Cxl/Protocol.antt =====
-- src/cxl/CxlTypes.h, src/cxl/CxlProtocolHandlerImpl.h and src/cxl/CxlCommandProcessor.cpp: a command
-- is carried out on the memory and answered. The command processor's `handleCommand` carries out the
-- same commands; it differs in what it answers.
use vans.Base.{
  ℕ, zero, suc, ◌/◌, ◌%◌, Bool, true, false, not, List, [], ◌∷◌, none, some, ◌==◌, if◌then◌else◌,
  replicate,
}
use vans.Cxl.Memory.{CxlMemory}
use vans.Cxl.Memory

pub data CommandType : Type 0 where
  read write discover invalidate flush allocate deallocate : CommandType

pub record CxlCommand : Type 0 where
  pub type : CommandType
  pub address : ℕ
  pub size : ℕ
  pub bytes : List ℕ

pub record CxlResponse : Type 0 where
  pub success : Bool
  pub bytes : List ℕ

-- `memcpy` of a `uint64_t`, the lowest byte first.
unfoldable pub bytes_of : ℕ → ℕ → List ℕ
bytes_of zero word = []
bytes_of (suc n) word = word % 256 ∷ bytes_of n (word / 256)

-- `issueCommand`, without the call of the response callback: the response and the memory after it.
-- A read that fails leaves its buffer of zeros.
unfoldable pub issue_command : CxlCommand → CxlMemory → CxlResponse × CxlMemory
unfolding bytes_of
issue_command cmd m = elim cmd.type [
  | read ↦ elim (Memory.read cmd.address cmd.size m) [
    | some bytes ↦ (record { success = true; bytes = bytes }, m)
    | none ↦ (record { success = false; bytes = replicate cmd.size 0 }, m)
  ]
  | write ↦
      let (success, m') = Memory.write cmd.address cmd.bytes cmd.size m in
      (record { success = success; bytes = [] }, m')
  | allocate ↦
      let (addr, m') = Memory.allocate cmd.size m in
      if not (addr == 0)
      then (record { success = true; bytes = bytes_of 8 addr }, m')
      else (record { success = false; bytes = [] }, m')
  | deallocate ↦ (record { success = true; bytes = [] }, Memory.deallocate cmd.address m)
  | discover ↦ (record { success = false; bytes = [] }, m)
  | invalidate ↦ (record { success = false; bytes = [] }, m)
  | flush ↦ (record { success = false; bytes = [] }, m)
]

-- `CxlCommandProcessor::handleCommand`: the response that it passes to `invokeResponse`.
unfoldable pub handle_command : CxlCommand → CxlMemory → CxlResponse × CxlMemory
unfolding bytes_of
handle_command cmd m = elim cmd.type [
  | read ↦ elim (Memory.read cmd.address cmd.size m) [
    | some bytes ↦ (record { success = true; bytes = bytes }, m)
    | none ↦ (record { success = false; bytes = [] }, m)
  ]
  | write ↦
      let (success, m') = Memory.write cmd.address cmd.bytes cmd.size m in
      (record { success = success; bytes = [] }, m')
  | allocate ↦
      let (addr, m') = Memory.allocate cmd.size m in
      (record { success = true; bytes = bytes_of 8 addr }, m')
  | deallocate ↦ (record { success = true; bytes = [] }, Memory.deallocate cmd.address m)
  | discover ↦ (record { success = false; bytes = [] }, m)
  | invalidate ↦ (record { success = false; bytes = [] }, m)
  | flush ↦ (record { success = false; bytes = [] }, m)
]
