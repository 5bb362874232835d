-- ===== src/Tests/Disk.antt =====
-- A disk that keeps an engine's contents for each directory.
use blun_mq.Base.{◌≡◌, refl, [], none, Text, text_eq, ◌==◌, if◌then◌else◌, ok, ==-refl, ap}
use blun_mq.Raft.LogStore.Open.{Files}
use blun_mq.Raft.LogStore.Open.Restart.{IsDurable}
use blun_mq.Tests.Instances.{Memory, memory, memory-IsLawful}

abbrev pub Disk : Type 0
Disk = Text → Memory

abbrev pub fresh : Memory
fresh = record { messages = λ r k. none; entries = λ r. [] }

abbrev pub leave : Text → Memory → Disk → Disk
leave dir s d other = if dir == other then s else d other

abbrev pub disk_files : Files memory Disk
disk_files = record {
  IoError = Unit;
  Config = Text;
  config = λ dir. dir;
  create_dir_all = λ dir d. (ok tt, d);
  open_engine = λ dir d. (ok (d dir), d);
}

pub leave_same : (dir : Text) (s : Memory) (d : Disk) → leave dir s d dir ≡ s
leave_same dir s d = rw (==-refl dir)

abbrev pub disk-IsDurable : IsDurable memory memory-IsLawful disk_files
disk-IsDurable = record {
  leave = leave;
  existing = λ dir s d. refl;
  recovered = λ dir s d. leave dir s d dir;
  after = λ dir s d. leave dir s d;
  open_engine_lem = λ dir s d. refl;
  recovered-messages = λ dir s d r key. ap (λ (t : Memory). t.messages r key) (leave_same dir s d);
  recovered-entries = λ dir s d r. ap (λ (t : Memory). t.entries r) (leave_same dir s d);
}
