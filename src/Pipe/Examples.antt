-- ===== src/Pipe/Examples.antt =====
-- The functions of kernel/fs/pipe.c at concrete states, and their theorems there.
use orion_final.Base.{ap, arith, ◌==◌, if◌then◌else◌}
use orion_final.Proc.Examples.{one, one-Inv, one_state}
use orion_final.Proc.Inv.{in_use}
use orion_final.Pipe.{Pipe, no_waiter, pipe_read_op}
use orion_final.Pipe.Ring.{Fits}
use orion_final.Pipe.Peer.{Runs}
use orion_final.Pipe.Transfer.{ReadOutcome, start, pipe_read_op_lem}

-- Three bytes, 7, 8 and 9, at the end of the array and round its corner.
abbrev wrapped : Pipe
wrapped = record {
  buf = λ i. if i == 4094 then 7 else if i == 4095 then 8 else 9;
  head = 4094;
  count = 3;
  readers = 1;
  writers = 1;
  blocked_reader = no_waiter;
  blocked_writer = no_waiter;
}

wrapped-Fits : Fits wrapped
wrapped-Fits = record { head_in = omega arith; count_in = omega arith }

one-Runs : Runs one 1
one-Runs = record { sound = one-Inv; current = one_state.1; used = ap in_use one_state.2 }

pipe_read_op_lem_example :
    ReadOutcome (start one wrapped (λ i. 0)) 1 2 (pipe_read_op one wrapped (λ i. 0) 2)
pipe_read_op_lem_example = pipe_read_op_lem one wrapped (λ i. 0) 1 2 one-Runs wrapped-Fits
