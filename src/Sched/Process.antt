-- ===== src/Sched/Process.antt =====
-- The records of src/scheduling/process.rs, src/mem/stack.rs and src/arch/x86_64/registers.rs, and the making
-- of a process. An `Arc` is a number that names the shared object.
use bubble_os.Base.{ℕ, Bool, true, false, Option, none, some, List, [], ◌∷◌, ◌>>=◌}

pub record FullInterruptStackFrame : Type 0 where
  pub r8 : ℕ
  pub r9 : ℕ
  pub r10 : ℕ
  pub r11 : ℕ
  pub r12 : ℕ
  pub r13 : ℕ
  pub r14 : ℕ
  pub r15 : ℕ
  pub rbp : ℕ
  pub rdi : ℕ
  pub rsi : ℕ
  pub rdx : ℕ
  pub rcx : ℕ
  pub rbx : ℕ
  pub rax : ℕ
  pub rip : ℕ
  pub cs : ℕ
  pub rflags : ℕ
  pub rsp : ℕ
  pub ss : ℕ

abbrev pub empty_frame : FullInterruptStackFrame
empty_frame = record {
  r8 = 0;
  r9 = 0;
  r10 = 0;
  r11 = 0;
  r12 = 0;
  r13 = 0;
  r14 = 0;
  r15 = 0;
  rbp = 0;
  rdi = 0;
  rsi = 0;
  rdx = 0;
  rcx = 0;
  rbx = 0;
  rax = 0;
  rip = 0;
  cs = 0;
  rflags = 0;
  rsp = 0;
  ss = 0;
}

pub record Stack : Type 0 where
  pub top : ℕ
  pub bottom : ℕ

pub record PageTable : Type 0 where
  pub addr : ℕ

pub record OpenFile : Type 0 where
  pub file : ℕ
  pub offset : ℕ
  pub readable : Bool
  pub writable : Bool

pub data FileDescriptor : Type 0 where
  stdin stdout stderr : FileDescriptor
  regular : OpenFile → FileDescriptor

abbrev pub FdTable : Type 0
FdTable = List (Option FileDescriptor)

pub record Process : Type 0 where
  pub pid : ℕ
  pub pre_schedule : Bool
  pub blocking : Bool
  pub awaiting_process : Option ℕ
  pub sleep_until_tick : Option ℕ
  pub context : FullInterruptStackFrame
  pub start_region : ℕ
  pub curr_working_dir : ℕ
  pub stack : Stack
  pub ring3_page_table : Option PageTable
  pub fd_table : FdTable

pub record ProcessEntry : Type 0 where
  pub entry : ℕ
  pub start_region : ℕ
  pub ring3_page_table : Option PageTable
  pub stack : Option Stack
  pub initial_rsp : ℕ

unfoldable pub standard_fd_table : FdTable
standard_fd_table = some stdin ∷ some stdout ∷ some stderr ∷ []

-- `Process::from`: a process needs a stack and a page table.
unfoldable pub from_entry : ProcessEntry → ℕ → ℕ → Option Process
from_entry e pid cwd = do
  stack ← e.stack
  table ← e.ring3_page_table
  some (record {
    pid = pid;
    pre_schedule = true;
    blocking = false;
    awaiting_process = none;
    sleep_until_tick = none;
    context = record empty_frame { rip = e.entry; rsp = e.initial_rsp };
    start_region = e.start_region;
    curr_working_dir = cwd;
    stack = stack;
    ring3_page_table = e.ring3_page_table;
    fd_table = standard_fd_table;
  })
