-- ===== src/Tests/Devices.antt =====
-- The results on storage devices at concrete inputs.
use libsim.Prelude.{
  ℕ, get_elem?, length, ◌<◌, ◌+◌, ◌≡◌, ◌≤◌, refl, true, List, [], ◌∷◌, ◌++◌, arith, if◌then◌else◌,
  ◌==◌, map, All, some, none,
}
use native.Mathlib.Decide.{dec_le}
use libsim.Prelude.Exec.{ok, err, crash, oob_read, storage, resize_too_small, ◌>>=◌, ◌>>◌}
use libsim.Storage.Delta.{Vector, Change}
use libsim.Storage.Session.{Call, session, write_at, read_at, get_at, undo, clear_to, resize_to}
use libsim.Storage.Block
use libsim.Storage.Block.{Block, block, block_device}
use libsim.Storage.Block.Laws.{block-IsValid}
use libsim.Storage.Block.AsRam.{block-Ram, block-Ram-IsGood}
use libsim.Storage.Map.{map_device, new_map}
use libsim.Storage.Map.Refines.{session-map_block}
use libsim.Storage.ReadOnly.{read_only, read_only_device, fail}
use libsim.Storage.ReadOnly.Protects.{Access, reads, writes, to_call, frozen, session-read_only}
use libsim.Storage.Range
use libsim.Storage.Range.{Range, new_range, set_span}
use libsim.Storage.Range.Ascending.{set_run, get-set_run}
use libsim.Storage.Range.Descending.{get-set_below}
use libsim.Storage.Layered
use libsim.Storage.Layered.{Layered, ReadMiss, WriteMiss, covers}
use libsim.Storage.Layered.Dispatch.{IsCovered, here, later, layered-write-read}
use libsim.Storage.Layered.Group.{none_left, layer, Fits, undo-layered, resize-Fits}
use libsim.Storage.Mmio.Input.{new_input}
use libsim.Storage.Mmio.Input.Queue.{buffer, take, outputs, of_queue, input-queue}
use libsim.Storage.Mmio.Input.Tape
use libsim.Storage.Mmio.Input.Tape.{Tape, results, tape_results, input-tape}
use libsim.Storage.Mmio.Input.Undo.{takes, found, undo-takes}
use libsim.Storage.Mmio.Output.{new_output}
use libsim.Storage.Mmio.Output.Log
use libsim.Storage.Mmio.Output.Log.{Log, log_results}
use libsim.Storage.Mmio.Output.Undo.{output-log}

abbrev zero_byte : ℕ
zero_byte = 0

abbrev eight : ℕ
eight = 8

abbrev nine : ℕ
nine = 9

abbrev calls : List (Call ℕ)
calls =
    write_at 2 8
    ∷ write_at 7 8
    ∷ read_at 2
    ∷ undo
    ∷ get_at 2
    ∷ clear_to 5
    ∷ resize_to 9
    ∷ read_at 7
    ∷ []

session-map_block_example :
    session (map_device true) calls (new_map 3 0) ≡ session (block_device true) calls (block 3 0)
session-map_block_example = session-map_block true 3 0 calls

abbrev program : List Access
program = reads 1 ∷ writes 1 8 ∷ reads 1 ∷ []

session-read_only_example :
    session
      (read_only_device (block_device true))
      (map to_call program)
      (read_only (block_device true) (block 3 9) fail)
    ≡ map (frozen fail (λ p. ((block_device true).read p (block 3 9)).0)) program
unfolding block
session-read_only_example =
    session-read_only (block_device true) (block-Ram true) program fail (block 3 9)
      (block-Ram-IsGood true (block 3 9) (block-IsValid 3 9)) (omega arith, (omega arith, tt))

abbrev two_layers : Layered (Block ℕ)
two_layers = record {
  max_offset = 3;
  layers = (0, block 1 0) ∷ (1, block 2 0) ∷ [];
  default = 0;
  read_policy = ReadMiss.oob;
  write_policy = WriteMiss.oob;
}

two_layers-IsCovered : (q : ℕ) → q ≤ 3 → IsCovered (block_device true) q two_layers.layers
unfolding covers block
two_layers-IsCovered q h = elim (dec_le q 1) [
  | yes p ↦ here (ground arith)
  | no p ↦ later (ground arith) (here (ground arith))
]

layered-write-read_example :
    ((Layered.write (block_device true) 2 nine two_layers).0 ≡ ok tt)
    × ((Layered.read
          (block_device true)
          2
          (Layered.write (block_device true) 2 nine two_layers).1).0
        ≡ (if 2 == 2 then ok nine else (Layered.read (block_device true) 2 two_layers).0))
layered-write-read_example =
    layered-write-read (block_device true) (block-Ram true) 2 nine 2 two_layers
      (
        block-Ram-IsGood true (block 1 0) (block-IsValid 1 0),
        (block-Ram-IsGood true (block 2 0) (block-IsValid 2 0), tt),
      )
      two_layers-IsCovered (omega arith)

abbrev gap : Layered (Block ℕ)
gap = record {
  max_offset = 3;
  layers = (0, block 1 0) ∷ [];
  default = 9;
  read_policy = ReadMiss.default_value;
  write_policy = WriteMiss.ignore;
}

abbrev changed : Layered (Block ℕ)
changed = record two_layers {
  layers =
      (
        0,
        record {
          max_offset = 1;
          cells = 8 ∷ 0 ∷ [];
          deltas = record { offset = 0; old_value = 0; new_value = 8 } ∷ [];
        },
      )
      ∷ [];
}

undo-layered_example :
    (Layered.take_delta (block_device true) true >>= Layered.apply_backward (block_device true))
      changed
    ≡ (ok tt, record changed { layers = (0, block 1 0) ∷ [] })
unfolding Block.take_delta Block.set_cell block libsim.Storage.Delta.apply_backward
undo-layered_example = undo-layered (block_device true) changed ((0, block 1 0) ∷ []) (
    layer
      (record {
        history = record { offset = 0; old_value = 0; new_value = 8 } ∷ [];
        emptied = record { max_offset = 1; cells = 8 ∷ 0 ∷ []; deltas = [] };
        taken = refl;
        played = refl;
      })
      none_left)

resize-Fits_example :
    ((All (Fits (block_device true) 2) two_layers.layers → ⊥)
      → Layered.resize (block_device true) true 2 two_layers
        ≡ (err (storage resize_too_small), two_layers))
    × (All (Fits (block_device true) 2) two_layers.layers
        → Layered.resize (block_device true) true 2 two_layers
          ≡ Layered.clear (block_device true) true 0 (record two_layers { max_offset = 2 }))
resize-Fits_example = resize-Fits (block_device true) true 2 two_layers

input-queue_example :
    outputs true (buffer (8 ∷ 9 ∷ []) ∷ take ∷ take ∷ take ∷ []) (new_input zero_byte)
    ≡ of_queue (buffer (8 ∷ 9 ∷ []) ∷ take ∷ take ∷ take ∷ []) []
input-queue_example = input-queue true zero_byte (buffer (8 ∷ 9 ∷ []) ∷ take ∷ take ∷ take ∷ [])

abbrev reading : List (Tape.Command ℕ)
reading =
    Tape.feed (8 ∷ 9 ∷ [])
    ∷ Tape.take
    ∷ Tape.take
    ∷ Tape.undo
    ∷ Tape.take
    ∷ Tape.take
    ∷ Tape.take
    ∷ []

input-tape_example :
    results reading (new_input zero_byte)
    ≡ tape_results reading (record { taken = []; waiting = []; count = 0 })
input-tape_example = input-tape zero_byte reading

undo-takes_example :
    results
      (Tape.feed ((eight ∷ []) ++ (nine ∷ [])) ∷ takes (eight ∷ []) (Tape.take ∷ []))
      (new_input zero_byte)
    ≡ ok none ∷ map found (eight ∷ [])
      ++ results (Tape.feed ((eight ∷ []) ++ (nine ∷ [])) ∷ Tape.take ∷ []) (new_input zero_byte)
undo-takes_example = undo-takes zero_byte (eight ∷ []) (nine ∷ []) (Tape.take ∷ []) (omega arith)

abbrev writing : List (Log.Command ℕ)
writing = Log.put 8 ∷ Log.put 9 ∷ Log.look ∷ Log.undo ∷ Log.look ∷ Log.peek ∷ []

output-log_example :
    Log.results writing (new_output zero_byte)
    ≡ log_results zero_byte writing (record { written = []; cached = none; count = 0 })
output-log_example = output-log zero_byte writing

get-set_run_example :
    (r : Range ℕ) × (set_run 4 (eight ∷ nine ∷ []) (new_range 9 0) ≡ (ok tt, r))
    × ((i w : ℕ) → get_elem? (eight ∷ nine ∷ []) i ≡ some w → Range.get r (4 + i) ≡ ok w)
    × ((p : ℕ) → 4 + length (nine ∷ []) < p → p ≤ 9 → Range.get r p ≡ ok 0)
    × ((p : ℕ) → p < 4 → Range.get r p ≡ crash)
    × ((p : ℕ) → 9 < p → Range.get r p ≡ err (storage oob_read))
get-set_run_example = get-set_run 9 4 0 8 (nine ∷ []) (omega arith)

get-set_below_example :
    (r : Range ℕ) × ((set_span 5 eight >> set_span 4 nine) (new_range 9 0) ≡ (ok tt, r))
    × (Range.get r 4 ≡ ok nine)
    × (Range.get r 5 ≡ ok 0)
get-set_below_example = get-set_below 9 4 0 eight nine (omega arith)
