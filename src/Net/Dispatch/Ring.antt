-- ===== src/Net/Dispatch/Ring.antt =====
-- The packets of a process in kernel/networking/network_dispatch.cpp.
use ionutnechita_redacted_os.Base.{
  ℕ, ◌+◌, ◌-◌, ◌%◌, ◌≤◌, ◌<◌, ◌⊎◌, inl, inr, leb, ◌&&◌, sub64, ==_refl, ◌≡◌, refl, ap, Bool, true,
  false, Option, none, some, List, [], ◌∷◌, arith, set, ◌==◌, ltb, if◌then◌else◌, get_elem?, ◌>>=◌,
  ◌∙◌, not,
}
use ionutnechita_redacted_os.Memory.Region.{
  region, Apart, clear, write64, write_header, write64-outside, head_address,
}
use ionutnechita_redacted_os.Memory.Pages.{
  UserRam, MemPage, PageState, update, kalloc, free_sized, page_of,
}
use ionutnechita_redacted_os.Process.Scheduler.{
  Process, Sched, get_proc_by_pid, get_current_heap, get_current_privilege,
}
use ionutnechita_redacted_os.Process.Scheduler.Start.{get_elem?-set}
use ionutnechita_redacted_os.Process.Scheduler.Buffer.{
  Buffered, wrap, push_overwriting, Buffered-push_overwriting, Buffered-pop, Buffered-empty,
  Buffered-oldest,
}
use ionutnechita_redacted_os.Net.Dispatch.{
  Dispatch, deliver, deliver_to, packet_written, next_packet, packet_taken, read_packet,
  copied_block, copy_out,
}

-- The packets that wait in the ring of a process, the oldest first.
abbrev pub Queued : Process → List (ℕ × ℕ) → Type 0
Queued p q = Buffered 128 p.packet_entries p.packet_read_index p.packet_write_index q

next_lem : (i : ℕ) → i < 128 → (i + 1) % 128 ≡ wrap 128 (i + 1)
next_lem i h = ground arith

packet_written-Queued :
    (packet : ℕ × ℕ) (p : Process) (q : List (ℕ × ℕ))
    → Queued p q
    → Queued (packet_written packet p) (push_overwriting 128 packet q)
packet_written-Queued packet p q b =
    let r = p.packet_read_index in
    let w = p.packet_write_index in
    rw (next_lem r b.read_below, next_lem w b.write_below)
      (Buffered-push_overwriting 128 p.packet_entries r w q packet (omega arith) b)

put :
    (port owner i : ℕ) (packet : ℕ × ℕ) (d : Dispatch) (p : Process)
    → port < 0xFFFF
    → d.ports port ≡ owner
    → owner < 0xFFFF
    → get_proc_by_pid owner d.sched ≡ some i
    → get_elem? d.sched.processes i ≡ some p
    → deliver port packet d
      ≡ some (
        false,
        record d {
          sched = record d.sched { processes = set d.sched.processes i (packet_written packet p) };
        },
      )
unfolding deliver deliver_to
put port owner i packet d p h e owned found there =
    let below : ltb port 0xFFFF ≡ true = (ground arith) in
    let differ : (owner == 0xFFFF) ≡ false = (ground arith) in
    ap (λ (b : Bool). (if b then some (d.ports port) else none) >>= look) below
    ∙ ap look e
    ∙ ap
        (λ (b : Bool).
          if not b
          then deliver_to port owner packet d (get_proc_by_pid owner d.sched)
          else some (true, d))
        differ
    ∙ ap (deliver_to port owner packet d) found
    ∙ rw there refl
  where
    look : ℕ → Option (Bool × Dispatch)
    look o =
        if not (o == 0xFFFF)
        then deliver_to port o packet d (get_proc_by_pid o d.sched)
        else some (true, d)

none_waits : (p : Process) → Queued p [] → next_packet p ≡ some none
unfolding next_packet
none_waits p b =
    rw (Buffered-empty 128 p.packet_entries p.packet_read_index p.packet_write_index b) refl

one_waits :
    (p : Process) (packet : ℕ × ℕ) (rest : List (ℕ × ℕ))
    → Queued p (packet ∷ rest)
    → next_packet p
      ≡ some (some (packet, record p { packet_read_index = (p.packet_read_index + 1) % 128 }))
unfolding next_packet
one_waits p packet rest b =
    let (differ, oldest) =
      Buffered-oldest 128 p.packet_entries p.packet_read_index p.packet_write_index packet rest b in
    rw (differ, oldest) refl

found_in :
    (depth fuel : ℕ) (ram : UserRam) (owner i : ℕ) (d : Dispatch) (s : PageState) (p : Process)
    (next : Option ((ℕ × ℕ) × Process))
    → get_proc_by_pid owner d.sched ≡ some i
    → get_elem? d.sched.processes i ≡ some p
    → next_packet p ≡ some next
    → read_packet depth fuel ram owner d s ≡ packet_taken depth fuel ram i d s next
unfolding read_packet
found_in depth fuel ram owner i d s p next found there e = rw (found, there, e) refl

-- A process without a packet is told so, and nothing is changed.
pub read_packet-none :
    (depth fuel : ℕ) (ram : UserRam) (owner i : ℕ) (d : Dispatch) (s : PageState) (p : Process)
    → get_proc_by_pid owner d.sched ≡ some i
    → get_elem? d.sched.processes i ≡ some p
    → Queued p []
    → read_packet depth fuel ram owner d s ≡ some (none, d, s)
unfolding packet_taken
read_packet-none depth fuel ram owner i d s p found there b =
    found_in depth fuel ram owner i d s p none found there (none_waits p b)

-- The memory once a packet is copied and its original is freed.
abbrev pub moved_mem : ℕ → ℕ → ℕ → ℕ → (ℕ → ℕ) → ℕ → ℕ
moved_mem copy ptr size head mem =
    write_header (clear (copied_block copy ptr size mem) ptr size) ptr size head

moved_mem-copy :
    (copy ptr size head : ℕ) (mem : ℕ → ℕ) (k : ℕ)
    → 16 ≤ size
    → Apart (region copy size) (region ptr size)
    → k < size
    → moved_mem copy ptr size head mem (copy + k) ≡ mem (ptr + k)
moved_mem-copy copy ptr size head mem k large apart h =
    let out : (copy + k < ptr) ⊎ (ptr + size ≤ copy + k) = beside copy ptr size k apart h in
    let cleared = clear (copied_block copy ptr size mem) ptr size in
    write64-outside (write64 cleared ptr size) (ptr + 8) head (copy + k)
      (narrow ptr (ptr + 8) size (copy + k) (omega arith) (omega arith) out)
    ∙ write64-outside cleared ptr size (copy + k)
        (narrow ptr ptr size (copy + k) (omega arith) (omega arith) out)
    ∙ not_cleared (copied_block copy ptr size mem) ptr size (copy + k) out
    ∙ copied copy ptr size mem k h
  where
    beside : (c p n j : ℕ) → Apart (region c n) (region p n) → j < n → (c + j < p) ⊎ (p + n ≤ c + j)
    beside c p n j (inl q) l = inl (omega arith)
    beside c p n j (inr q) l = inr (omega arith)

    narrow :
        (p at n a : ℕ) → p ≤ at → at + 8 ≤ p + n → (a < p) ⊎ (p + n ≤ a) → (a < at) ⊎ (at + 8 ≤ a)
    narrow p at n a l u (inl q) = inl (omega arith)
    narrow p at n a l u (inr q) = inr (omega arith)

    not_cleared : (m : ℕ → ℕ) (p n a : ℕ) → (a < p) ⊎ (p + n ≤ a) → clear m p n a ≡ m a
    not_cleared m p n a (inl q) = ground arith
    not_cleared m p n a (inr q) = ground arith

    copied : (c p n : ℕ) (m : ℕ → ℕ) (j : ℕ) → j < n → copied_block c p n m (c + j) ≡ m (p + j)
    copied c p n m j l =
        let inside : (leb c (c + j) && ltb (c + j) (c + n)) ≡ true = (ground arith) in
        let same : c + j - c ≡ j = omega arith in rw inside (ap (λ (x : ℕ). m (p + x)) same)

copy_out_lem :
    (depth fuel : ℕ) (ram : UserRam) (ptr size : ℕ) (sched : Sched) (s s₁ : PageState)
    (heap copy : ℕ) (privilege : Bool) (info : MemPage)
    → get_current_heap sched ≡ some heap
    → get_current_privilege sched ≡ some privilege
    → kalloc depth fuel ram heap size 16 privilege false s ≡ some (copy, s₁)
    → s₁.pages (page_of ptr) ≡ some info
    → copy_out depth fuel ram (ptr, size) sched s
      ≡ some (
        (copy, size),
        record s₁ {
          mem = moved_mem copy ptr size (head_address info.free_list) s₁.mem;
          pages = update s₁.pages (page_of ptr) (
              some (record info {
                free_list = region ptr size ∷ info.free_list;
                size = sub64 info.size size;
              }));
        },
      )
unfolding copy_out free_sized
copy_out_lem depth fuel ram ptr size sched s s₁ heap copy privilege info at_heap at_level allocated
      page =
    rw (at_heap, at_level, allocated, page) refl

-- A packet for a bound port is put behind those that wait for the owner; of 127 that wait, the oldest
-- is lost, and no packet is given back.
pub deliver-Queued :
    (port owner i : ℕ) (packet : ℕ × ℕ) (d : Dispatch) (p : Process) (q : List (ℕ × ℕ))
    → port < 0xFFFF
    → d.ports port ≡ owner
    → owner < 0xFFFF
    → get_proc_by_pid owner d.sched ≡ some i
    → get_elem? d.sched.processes i ≡ some p
    → Queued p q
    → (d' : Dispatch) × (p' : Process) × (deliver port packet d ≡ some (false, d'))
      × (get_elem? d'.sched.processes i ≡ some p')
      × Queued p' (push_overwriting 128 packet q)
deliver-Queued port owner i packet d p q h e owned found there b = (
  record d {
    sched = record d.sched { processes = set d.sched.processes i (packet_written packet p) };
  },
  packet_written packet p,
  put port owner i packet d p h e owned found there,
  get_elem?-set d.sched.processes i p (packet_written packet p) there,
  packet_written-Queued packet p q b,
)

-- Where the heap and the privilege of the current process are known, the allocation of the copy succeeds
-- with a block apart from the packet, and the packet has a page header and room for a free block:
-- a process is given the copy of the oldest packet that waits, which holds the bytes that lay at
-- the original after the allocation. The original heads the free blocks of its page, and the rest of the ring waits on.
pub read_packet-Queued :
    (depth fuel : ℕ) (ram : UserRam) (owner i : ℕ) (d : Dispatch) (s s₁ : PageState) (p : Process)
    (ptr size : ℕ) (rest : List (ℕ × ℕ)) (heap copy : ℕ) (privilege : Bool) (info : MemPage)
    → get_proc_by_pid owner d.sched ≡ some i
    → get_elem? d.sched.processes i ≡ some p
    → Queued p ((ptr, size) ∷ rest)
    → get_current_heap d.sched ≡ some heap
    → get_current_privilege d.sched ≡ some privilege
    → kalloc depth fuel ram heap size 16 privilege false s ≡ some (copy, s₁)
    → s₁.pages (page_of ptr) ≡ some info
    → 16 ≤ size
    → Apart (region copy size) (region ptr size)
    → (d' : Dispatch) × (p' : Process) × (s' : PageState) × (read_packet depth fuel ram owner d s
        ≡ some (some (copy, size), d', s'))
      × (get_elem? d'.sched.processes i ≡ some p')
      × Queued p' rest
      × ((k : ℕ) → k < size → s'.mem (copy + k) ≡ s₁.mem (ptr + k))
      × (s'.pages (page_of ptr)
          ≡ some (record info {
            free_list = region ptr size ∷ info.free_list;
            size = sub64 info.size size;
          }))
unfolding packet_taken
read_packet-Queued depth fuel ram owner i d s s₁ p ptr size rest heap copy privilege info found
      there b at_heap at_level allocated page large apart =
    let p' = record p { packet_read_index = (p.packet_read_index + 1) % 128 } in
    let d' = record d { sched = record d.sched { processes = set d.sched.processes i p' } } in
    let freed = record info {
      free_list = region ptr size ∷ info.free_list;
      size = sub64 info.size size;
    } in
    let head = head_address info.free_list in
    (
      d',
      p',
      record s₁ {
        mem = moved_mem copy ptr size head s₁.mem;
        pages = update s₁.pages (page_of ptr) (some freed);
      },
      found_in depth fuel ram owner i d s p (some ((ptr, size), p')) found there
            (one_waits p (ptr, size) rest b)
          ∙ ap (λ (o : Option ((ℕ × ℕ) × PageState)). o >>= λ (c, s'). some (some c, d', s'))
              (copy_out_lem depth fuel ram ptr size d.sched s s₁ heap copy privilege info at_heap
                at_level allocated page),
      get_elem?-set d.sched.processes i p p' there,
      rw (next_lem p.packet_read_index b.read_below) (
          Buffered-pop 128 p.packet_entries p.packet_read_index p.packet_write_index (ptr, size)
            rest b),
      λ k h. moved_mem-copy copy ptr size head s₁.mem k large apart h,
      rw (==_refl (page_of ptr)) refl,
    )
