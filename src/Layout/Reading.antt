-- ===== src/Layout/Reading.antt =====
-- What a layout file makes of the lengths, and of a later failure of the switch.
use net_lock.Common.{
  ℕ, ◌+◌, ◌<◌, ◌≡◌, refl, ◌∙◌, List, [], ◌∷◌, Option, some, Bool, true, false, ◌==◌, ltb,
  if◌then◌else◌, write, length, All, lt→ltb, eq→==,
}
use net_lock.Wire.{Env}
use net_lock.Server.{Server, Frame, Round, max_lock_num, failure_notification, add64}
use net_lock.Server.Process.{process}
use net_lock.Args.{Settings}
use net_lock.Layout.{
  Layout, Line, File, Lengths, read_loop, read_file, layout_file, by_benchmark, cleared,
  get_queue_len_in_switch,
}

-- The lock of the line is within the arrays.
abbrev pub IsInside : Line → Type 0
IsInside n = n.lk_idx + 1 < max_lock_num

-- The length that the last line for a lock gives, or `before` if there is none.
abbrev pub length_of : List Line → (before lock : ℕ) → ℕ
length_of [] before lock = before
length_of (n ∷ lines) before lock =
    length_of lines (if lock == n.lk_idx + 1 then n.lk_length else before) lock

read_loop-length_of :
    (records : Bool) (last : ℕ) (lines : List Line) (l : Lengths)
    → All IsInside lines
    → (l' : Lengths) × (read_loop records (length lines) last lines l ≡ some l')
      × (l'.secondary_locks ≡ l.secondary_locks)
      × ((lock : ℕ) → l'.len_in_switch lock ≡ length_of lines (l.len_in_switch lock) lock)
unfolding read_loop write
read_loop-length_of records last [] l inside = (l, refl, refl, λ lock. refl)
read_loop-length_of records last (n ∷ lines) l inside =
    let l1 : Lengths = record l {
      len_in_switch = write l.len_in_switch (n.lk_idx + 1) n.lk_length;
    } in
    let (l', ran, same, lens) = read_loop-length_of records n.lk_idx lines l1 inside.1 in
    (l', rw (lt→ltb (n.lk_idx + 1) max_lock_num inside.0) ran, same, lens)

by_benchmark_tpcc :
    (b start : ℕ) (x y : Option Lengths) (l : Lengths) → b ≡ 116 → by_benchmark b start x y l ≡ y
unfolding by_benchmark
by_benchmark_tpcc b start x y l e = rw e refl

read_file_whole :
    (records : Bool) (last : ℕ) (f : File) (l l' : Lengths)
    → f.line_c ≡ some (length f.lines)
    → read_loop records (length f.lines) last f.lines l ≡ some l'
    → read_file records last f l ≡ some l'
unfolding read_file
read_file_whole records last f l l' whole ran = rw whole ran

-- A TPC-C layout file with as many lines as `wc` counts, all for locks within the arrays: the switch's
-- queue of each lock is as long as the last line for it says, and 0 without one; but no lock is
-- recorded, so that a later failure notification leaves all queues of a server with these settings
-- as they are.
pub get_queue_len_in_switch-failure :
    (s : Settings) (start last : ℕ) (files : Layout → File) (l : Lengths) (env : Env)
    (round : Round) (f : Frame) (server : Server)
    → s.benchmark ≡ 116
    → (files (layout_file s)).line_c ≡ some (length (files (layout_file s)).lines)
    → All IsInside (files (layout_file s)).lines
    → l.secondary_locks ≡ []
    → f.mem_role ≡ failure_notification
    → (l' : Lengths) × (server' : Server) × (get_queue_len_in_switch s start last files l ≡ some l')
      × ((lock : ℕ)
          → l'.len_in_switch lock
            ≡ length_of
                (files (layout_file s)).lines
                (if ltb lock max_lock_num then 0 else l.len_in_switch lock)
                lock)
      × (process env round f (record server { secondary_locks = l'.secondary_locks })
          ≡ some (server', []))
      × (server'.queues ≡ server.queues)
unfolding get_queue_len_in_switch process
get_queue_len_in_switch-failure s start last files l env round f server tpcc whole inside none_yet
      fails =
    let lines = (files (layout_file s)).lines in
    let l0 = cleared l in
    let (l', ran, same, lens) = read_loop-length_of true last lines l0 inside in
    let still_none : l'.secondary_locks ≡ [] = same ∙ none_yet in
    (
      l',
      record server { secondary_locks = []; rx = add64 server.rx 1 },
      by_benchmark_tpcc s.benchmark start (read_file false last (files (layout_file s)) l0)
            (read_file true last (files (layout_file s)) l0) l0 tpcc
          ∙ read_file_whole true last (files (layout_file s)) l0 l' whole ran,
      lens,
      rw (eq→== f.mem_role failure_notification fails, still_none) refl,
      refl,
    )
