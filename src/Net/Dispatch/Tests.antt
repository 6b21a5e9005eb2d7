-- ===== src/Net/Dispatch/Tests.antt =====
-- Runs of kernel/networking/network_dispatch.cpp on one process.
use ionutnechita_redacted_os.Base.{
  ℕ, zero, suc, ◌+◌, ◌%◌, ◌<◌, ◌≡◌, refl, true, false, Option, none, some, List, [], ◌∷◌, ◌++◌,
  arith, inr, ◌==◌, if◌then◌else◌, get_elem?, replicate,
}
use ionutnechita_redacted_os.Memory.Region.{region, clear, first_fit, unlinked}
use ionutnechita_redacted_os.Memory.Pages.{MemPage, PageState, UserRam, update, kalloc}
use ionutnechita_redacted_os.Process.Scheduler.{
  ready, Process, get_proc_by_pid, get_current_heap, get_current_privilege,
}
use ionutnechita_redacted_os.Process.Scheduler.Buffer.{wrap}
use ionutnechita_redacted_os.Net.Packet.{eth_parse_packet_type}
use ionutnechita_redacted_os.Net.Message.{arp_should_handle, arp_populate_response}
use ionutnechita_redacted_os.Net.Dispatch.{
  Dispatch, bind_port, unbind_port, deliver, Reply, answers_arp, Handled, handle_arp,
  handle_download_interrupt, read_packet,
}
use ionutnechita_redacted_os.Net.Dispatch.Ports.{unbind_port-bind_port}
use ionutnechita_redacted_os.Net.Dispatch.Ring.{Queued, deliver-Queued, read_packet-Queued}

-- One packet waits, at the end of the ring.
abbrev owner : Process
owner = record {
  regs = [];
  sp = 0;
  pc = 0;
  spsr = 0;
  id = 7;
  stack = 0;
  stack_size = 0;
  heap = 0x20000;
  focused = false;
  state = ready;
  input_read_index = 0;
  input_write_index = 0;
  input_entries = [];
  packet_read_index = 127;
  packet_write_index = 0;
  packet_entries = replicate 127 (0, 0) ++ ((0x8040, 60) ∷ []);
  name = [];
}

ports : ℕ → ℕ
ports port = if port == 1067 then 7 else 0xFFFF

abbrev dispatch : Dispatch
dispatch = record {
  ports = ports;
  ip = 0x0a000002;
  sched = record {
    processes = owner ∷ [];
    current_proc = 0;
    proc_count = 1;
    next_proc_index = 1;
    sleeping = [];
    sleep_count = 0;
    ksp = 0;
    events = [];
  };
}

waiting :
    (k : ℕ)
    → k < 1
    → get_elem? ((0x8040, 60) ∷ []) k ≡ get_elem? owner.packet_entries (wrap 128 (127 + k))
waiting zero h = refl
waiting (suc k) h = absurd (omega arith)

owner-Queued : Queued owner ((0x8040, 60) ∷ [])
owner-Queued = record {
  read_below = omega arith;
  write_below = omega arith;
  entries_length = refl;
  held_length = inr refl;
  held_below = omega arith;
  held = waiting;
}

found_test : get_proc_by_pid 7 dispatch.sched ≡ some 0
unfolding get_proc_by_pid
found_test = refl

ports_test : (ports 1067 ≡ 7) × (ports 80 ≡ 0xFFFF)
unfolding ports
ports_test = (refl, refl)

deliver-Queued_example :
    (d' : Dispatch) × (p' : Process) × (deliver 1067 (0x9000, 50) dispatch ≡ some (false, d'))
    × (get_elem? d'.sched.processes 0 ≡ some p')
    × Queued p' ((0x8040, 60) ∷ (0x9000, 50) ∷ [])
deliver-Queued_example =
    deliver-Queued 1067 7 0 (0x9000, 50) dispatch owner ((0x8040, 60) ∷ []) (omega arith)
      ports_test.0 (omega arith) found_test refl owner-Queued

abbrev page_at : ℕ → ℕ → MemPage
page_at free used = record { next = 0; free_list = []; next_free_mem_ptr = free; size = used }

-- The packet lies in the page at 0x8000, and the heap of the process begins at 0x20000.
abbrev heap_pages : PageState
heap_pages = record {
  bitmap = λ i. 0;
  mapped = [];
  pages =
      update (update (λ a. none) 0x8000 (some (page_at 0x8080 64))) 0x20000
        (some (page_at 0x20020 0));
  mem = λ a. a % 251;
}

abbrev after_kalloc : PageState
after_kalloc = record heap_pages {
  mem = clear heap_pages.mem 0x20020 64;
  pages = update heap_pages.pages 0x20000 (some (page_at 0x20060 64));
}

abbrev ram : UserRam
ram = record { ram_start = 0; ram_end = 0x100000 }

current_test :
    (get_current_heap dispatch.sched ≡ some 0x20000)
    × (get_current_privilege dispatch.sched ≡ some false)
unfolding get_current_heap get_current_privilege
current_test = (refl, refl)

kalloc_test : kalloc 1 1 ram 0x20000 60 16 false false heap_pages ≡ some (0x20020, after_kalloc)
unfolding kalloc first_fit unlinked
kalloc_test = refl

read_packet-Queued_example :
    (d' : Dispatch) × (p' : Process) × (s' : PageState) × (read_packet 1 1 ram 7 dispatch heap_pages
      ≡ some (some (0x20020, 60), d', s'))
    × (get_elem? d'.sched.processes 0 ≡ some p')
    × Queued p' []
    × ((k : ℕ) → k < 60 → s'.mem (0x20020 + k) ≡ after_kalloc.mem (0x8040 + k))
    × (s'.pages 0x8000
        ≡ some (record {
          next = 0;
          free_list = region 0x8040 60 ∷ [];
          next_free_mem_ptr = 0x8080;
          size = 4;
        }))
read_packet-Queued_example =
    read_packet-Queued 1 1 ram 7 0 dispatch heap_pages after_kalloc owner 0x8040 60 [] 0x20000
      0x20020 false (page_at 0x8080 64) found_test refl owner-Queued current_test.0 current_test.1
      kalloc_test refl (omega arith) (inr (omega arith))

unbind_port-bind_port_example :
    (d' d'' : Dispatch) × (bind_port 80 7 dispatch ≡ some (true, d'))
    × (bind_port 80 8 d' ≡ some (false, d'))
    × (unbind_port 80 8 d' ≡ some (false, d'))
    × (unbind_port 80 7 d' ≡ some (true, d''))
    × ((q : ℕ) → d''.ports q ≡ dispatch.ports q)
unbind_port-bind_port_example =
    unbind_port-bind_port 80 7 8 dispatch (omega arith) ports_test.1 (omega arith)
      (λ e. absurd (omega arith))

abbrev eth : ℕ → List ℕ
eth low = 1 ∷ 2 ∷ 3 ∷ 4 ∷ 5 ∷ 6 ∷ 7 ∷ 8 ∷ 9 ∷ 10 ∷ 11 ∷ 12 ∷ 8 ∷ low ∷ []

abbrev arp : List ℕ
arp =
    replicate 8 0
    ++ (7 ∷ 8 ∷ 9 ∷ 10 ∷ 11 ∷ 12 ∷ 10 ∷ 0 ∷ 0 ∷ 1 ∷ replicate 6 0 ++ (10 ∷ 0 ∷ 0 ∷ 2 ∷ []))

answers_of : Option Handled → List Reply
answers_of none = []
answers_of (some h) = h.answers

-- A question for the address 10.0.0.2 from 10.0.0.1.
arp_test :
    answers_of (handle_download_interrupt (eth 6 ++ arp) (0x9000, 42) dispatch)
    ≡ answers_arp (7 ∷ 8 ∷ 9 ∷ 10 ∷ 11 ∷ 12 ∷ []) 0x0100000a ∷ []
unfolding answers_of handle_download_interrupt handle_arp eth_parse_packet_type arp_should_handle
    arp_populate_response
arp_test = refl
