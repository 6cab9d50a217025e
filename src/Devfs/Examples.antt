-- ===== src/Devfs/Examples.antt =====
-- `kbd_read` of kernel/fs/devfs.c at concrete states, and its theorems there.
use orion_final.Base.{ℕ, ◌≡◌, ◌≢◌, ◌⊎◌, [], arith}
use orion_final.Kernel.{Kernel, state_of, ready, blocked}
use orion_final.Proc.Examples.{one, one_state}
use orion_final.Keyboard.{translate, keyboard_handler}
use orion_final.Keyboard.Ring.{contents}
use orion_final.Keyboard.Examples.{empty_ring, empty_ring-Fits, empty_ring-contents, press_of_a}
use orion_final.Devfs.{gives, waits, kbd_take, kbd_block, kbd_read}
use orion_final.Devfs.Reading.{Took, kbd_read_lem, kbd_read-keyboard_handler}

kbd_read_lem_example :
    ((contents empty_ring ≢ [])
      × (kbd_read one empty_ring (λ i. 0) 4 ≡ gives one (kbd_take empty_ring (λ i. 0) 0 4))
      × Took empty_ring (λ i. 0) 0 4 (kbd_take empty_ring (λ i. 0) 0 4))
    ⊎ ((contents empty_ring ≡ [])
        × (kbd_read one empty_ring (λ i. 0) 4
            ≡ waits (kbd_block one empty_ring 1).0 (kbd_block one empty_ring 1).1)
        × (state_of (kbd_block one empty_ring 1).0 1 ≡ blocked)
        × ((kbd_block one empty_ring 1).1.waiter_pid ≡ 1)
        × (contents (kbd_block one empty_ring 1).1 ≡ contents empty_ring))
kbd_read_lem_example =
    kbd_read_lem one empty_ring (λ i. 0) 1 4 empty_ring-Fits one_state.1 (omega arith)

kbd_read-keyboard_handler_example :
    let (k, kb) = kbd_block one empty_ring 1 in
    let (k', kb') = keyboard_handler k kb 0x1e in
    (kbd_read one empty_ring (λ i. 0) 4 ≡ waits k kb)
    × (state_of k' 1 ≡ ready)
    × ((next : Kernel ℕ)
        → let r = kbd_take kb' (λ i. 0) 0 4 in
          (kbd_read next kb' (λ i. 0) 4 ≡ gives next r)
          × (r.2 ≡ 1)
          × (r.1 0 ≡ translate empty_ring 0x1e)
          × (contents r.0 ≡ []))
kbd_read-keyboard_handler_example =
    kbd_read-keyboard_handler one empty_ring (λ i. 0) 1 3 0x1e empty_ring-Fits empty_ring-contents
      one_state.1 (omega arith) (omega arith) (omega arith) (omega arith) (omega arith)
      (omega (arith, press_of_a))
