-- ===== src/Net/Dispatch.antt =====
-- kernel/networking/network_dispatch.cpp: the ports, and the packets of a process. The processes are
-- those of Process/Scheduler.antt. A packet is its pointer and size, as in the ring of a process,
-- and `bytes` are what lies at the pointer. The memory that `read_packet` copies in is that of
-- Memory/Pages.antt. What is sent and what is given back are answers. The
-- outcome `none` is an access through NULL or outside an array. The driver, and `send_packet`,
-- which makes packets in memory of the driver, are left out.
pub mod Ports
pub mod Ring
mod Tests
use ionutnechita_redacted_os.Base.{
  ℕ, zero, suc, ◌+◌, ◌-◌, ◌*◌, ◌/◌, ◌%◌, ◌^◌, ◌≤◌, ◌<◌, ◌≡◌, ◌≢◌, ◌↔◌, refl, ap, Bool, true, false,
  Option, none, some, List, [], ◌∷◌, ◌++◌, arith, length, length-set, get_or, set,
  get_elem?-eq-get_or, ◌⊎◌, inl, inr, ◌==◌, ltb, leb, if◌then◌else◌, u64, u32, sub64, sub32,
  bswap16, bswap32, u8, u16, Bool-cases, store?, store?-eq-set, get_elem?, ◌>>=◌, ◌∙◌, sym, ap₂,
  min, max, ◌&&◌, ◌||◌, not, take, drop, replicate, length-append, length-replicate, append-nil,
  append_assoc, ◌>>>◌, bit_or, bit_and, bit_xor, ltb→lt, lt→ltb, le→ltb_false,
}
use ionutnechita_redacted_os.Memory.Pages.{UserRam, PageState, kalloc, free_sized}
use ionutnechita_redacted_os.Process.Scheduler.{
  Process, Sched, get_proc_by_pid, get_current_heap, get_current_privilege,
}
use ionutnechita_redacted_os.Net.Packet.{
  field16, udp_parse_packet, eth_parse_packet_type, ipv4_get_protocol, ipv4_get_source,
}
use ionutnechita_redacted_os.Net.Message.{
  arp_should_handle, arp_populate_response, IcmpData, icmp_get_sequence, icmp_get_id,
  icmp_copy_payload,
}

-- `ports` has 65535 places.
pub record Dispatch : Type 0 where
  pub ports : ℕ → ℕ
  pub ip : ℕ
  pub sched : Sched

abbrev pub port_at : ℕ → Dispatch → Option ℕ
port_at port d = if ltb port 0xFFFF then some (d.ports port) else none

abbrev pub write_port : ℕ → ℕ → Dispatch → Dispatch
write_port port value d = record d { ports = λ q. if q == port then value else d.ports q }

pub bind_port : ℕ → ℕ → Dispatch → Option (Bool × Dispatch)
bind_port port process d = port_at port d >>= λ owner.
    if not (owner == 0xFFFF) then some (false, d) else some (true, write_port port process d)

pub unbind_port : ℕ → ℕ → Dispatch → Option (Bool × Dispatch)
unbind_port port process d = port_at port d >>= λ owner.
    if not (owner == process) then some (false, d) else some (true, write_port port 0xFFFF d)

-- The packet at the end of the ring of a process.
abbrev pub packet_written : ℕ × ℕ → Process → Process
packet_written packet p =
    let next_index = (p.packet_write_index + 1) % 128 in
    record p {
      packet_entries = set p.packet_entries p.packet_write_index packet;
      packet_write_index = next_index;
      packet_read_index =
          if next_index == p.packet_read_index
          then (p.packet_read_index + 1) % 128
          else p.packet_read_index;
    }

-- The packet for the owner of its port, without one for nobody: whether it is still to be freed.
pub deliver_to : ℕ → ℕ → ℕ × ℕ → Dispatch → Option ℕ → Option (Bool × Dispatch)
deliver_to port owner packet d none = unbind_port port owner d >>= λ (b, d'). some (true, d')
deliver_to port owner packet d (some i) = get_elem? d.sched.processes i >>= λ p. some (
  false,
  record d {
    sched = record d.sched { processes = set d.sched.processes i (packet_written packet p) };
  },
)

pub deliver : ℕ → ℕ × ℕ → Dispatch → Option (Bool × Dispatch)
deliver port packet d = port_at port d >>= λ owner.
    if not (owner == 0xFFFF)
    then deliver_to port owner packet d (get_proc_by_pid owner d.sched)
    else some (true, d)

-- What is sent: the address of the peer, and for ICMP the data.
pub data Reply : Type 0 where
  answers_arp : List ℕ → ℕ → Reply
  answers_icmp : List ℕ → ℕ → IcmpData → Reply

-- How a packet is handled: whether it is still to be freed, what is sent, and the state.
pub record Handled : Type 0 where
  pub need_free : Bool
  pub answers : List Reply
  pub dispatch : Dispatch

abbrev unanswered : Dispatch → Handled
unanswered d = record { need_free = true; answers = []; dispatch = d }

pub handle_arp : List ℕ → Dispatch → Option Handled
handle_arp arp d = arp_should_handle arp d.ip >>= λ handle.
    if handle
    then (arp_populate_response arp >>= λ (mac, ip).
        some (record { need_free = true; answers = answers_arp mac ip ∷ []; dispatch = d }))
    else some (unanswered d)

-- `eth` is the packet, and `ipv4` what lies behind its first header.
pub handle_icmp : List ℕ → List ℕ → Dispatch → Option Handled
handle_icmp eth ipv4 d = do
  let icmp = drop 20 ipv4
  seq ← icmp_get_sequence icmp
  id ← icmp_get_id icmp
  ip ← ipv4_get_source ipv4
  some (record {
    need_free = true;
    answers =
        answers_icmp (take 6 (drop 6 eth)) ip
          (record { response = true; seq = seq; id = id; payload = icmp_copy_payload icmp })
        ∷ [];
    dispatch = d;
  })

pub handle_ipv4 : List ℕ → List ℕ → ℕ × ℕ → Dispatch → Option Handled
handle_ipv4 eth ipv4 packet d = ipv4_get_protocol ipv4 >>= λ protocol.
    if protocol == 0x11 || protocol == 0x06
    then (udp_parse_packet (drop 20 ipv4) >>= λ port. deliver port packet d >>= λ (free, d').
        some (record { need_free = free; answers = []; dispatch = d' }))
    else if protocol == 0x1
    then handle_icmp eth ipv4 d
    else some (unanswered d)

-- With a driver, which has received `bytes` at the packet's pointer.
pub handle_download_interrupt : List ℕ → ℕ × ℕ → Dispatch → Option Handled
handle_download_interrupt bytes (ptr, size) d =
    if ptr == 0
    then some (unanswered d)
    else (eth_parse_packet_type bytes >>= λ ethtype.
        if ethtype == 0x806
        then handle_arp (drop 14 bytes) d
        else if ethtype == 0x800
        then handle_ipv4 bytes (drop 14 bytes) (ptr, size) d
        else some (unanswered d))

-- The oldest packet of a process, if it has one.
pub next_packet : Process → Option (Option ((ℕ × ℕ) × Process))
next_packet p =
    if p.packet_read_index == p.packet_write_index
    then some none
    else (get_elem? p.packet_entries p.packet_read_index >>= λ packet.
        some (some (packet, record p { packet_read_index = (p.packet_read_index + 1) % 128 })))

-- `memcpy` between two regions that have no byte in common; Std.Mem has the loop itself.
abbrev pub copied_block : ℕ → ℕ → ℕ → (ℕ → ℕ) → ℕ → ℕ
copied_block dest src n mem a =
    if leb dest a && ltb a (dest + n) then mem (src + (a - dest)) else mem a

-- The copy of a packet on the heap of the current process, and the state without the original.
pub copy_out : ℕ → ℕ → UserRam → ℕ × ℕ → Sched → PageState → Option ((ℕ × ℕ) × PageState)
copy_out depth fuel ram (ptr, size) sched s = do
  heap ← get_current_heap sched
  privilege ← get_current_privilege sched
  (copy, s₁) ← kalloc depth fuel ram heap size 16 privilege false s
  s₂ ← free_sized (ptr, size) (record s₁ { mem = copied_block copy ptr size s₁.mem })
  some ((copy, size), s₂)

-- What `read_packet` does with the packet that `next_packet` has found for the process `i`.
pub packet_taken :
    ℕ
    → ℕ
    → UserRam
    → ℕ
    → Dispatch
    → PageState
    → Option ((ℕ × ℕ) × Process)
    → Option (Option (ℕ × ℕ) × Dispatch × PageState)
unfolding copy_out
packet_taken depth fuel ram i d s none = some (none, d, s)
packet_taken depth fuel ram i d s (some (packet, p)) =
    copy_out depth fuel ram packet d.sched s >>= λ (copy, s').
    some
      (some copy, record d { sched = record d.sched { processes = set d.sched.processes i p } }, s')

-- The packet that the process is given; its absence is the answer `false`. The chain of heap pages
-- is at most `depth` long, and `fuel` is that of `palloc`.
pub read_packet :
    ℕ → ℕ → UserRam → ℕ → Dispatch → PageState → Option (Option (ℕ × ℕ) × Dispatch × PageState)
unfolding next_packet packet_taken
read_packet depth fuel ram process d s = do
  i ← get_proc_by_pid process d.sched
  p ← get_elem? d.sched.processes i
  next ← next_packet p
  packet_taken depth fuel ram i d s next
