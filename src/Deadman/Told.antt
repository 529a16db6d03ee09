-- ===== src/Deadman/Told.antt =====
-- What the chain of listeners leaves of each driver's hardware.
use kernel_module_glowforge.Base.{
  ℕ, ◌≡◌, Bool, true, false, ◌&&◌, ◌||◌, List, [], ◌∷◌, map, leb, if◌then◌else◌, refl, ◌∙◌, ap,
  arith,
}
use kernel_module_glowforge.Thermal.{Thermal, make_safe}
use kernel_module_glowforge.Thermal.Heater.{IsSafe, callbacks, make_safe-IsSafe}
use kernel_module_glowforge.Pic.{
  Reply, pic_make_safe, pic_first_output_register, pic_last_output_register,
}
use kernel_module_glowforge.Pic.Chip.{Chip, exchange_all}
use kernel_module_glowforge.Pic.Registers.{written-reg, write-txbuf}
use kernel_module_glowforge.Head.{head_reg_rw_grp, head_reg_msr_laser, head_reg_uv_led}
use kernel_module_glowforge.Head.Chip.{HeadChip, has_bit}
use kernel_module_glowforge.Head.Registers.{head_make_safe_lem}
use kernel_module_glowforge.Deadman.{
  NotifierChain, Buses, Listener, pic_listener, head_listener, thermal_listener, Machine,
  pic_dms_handler, head_dms_handler, thermal_dms_handler, handler,
}

abbrev pub is_pic : Listener → Bool
is_pic pic_listener = true
is_pic _ = false

abbrev pub is_head : Listener → Bool
is_head head_listener = true
is_head _ = false

abbrev pub is_thermal : Listener → Bool
is_thermal thermal_listener = true
is_thermal _ = false

abbrev pub any : (Listener → Bool) → List Listener → Bool
any f [] = false
any f (l ∷ ls) = f l || any f ls

abbrev pub is_output : ℕ → Bool
is_output q = leb pic_first_output_register q && leb q pic_last_output_register

-- What the handler of the PIC driver writes
outputs_zeroed :
    (chip : Chip) (stale : ℕ) (reply : Reply) (s : chip.State) (q : ℕ)
    → chip.reg (exchange_all chip (pic_make_safe stale reply).txbuf s).1 q
      ≡ (if is_output q then 0 else chip.reg s q)
unfolding pic_make_safe
outputs_zeroed chip stale reply s q =
    let zeros : List ℕ = 0 ∷ 0 ∷ 0 ∷ 0 ∷ 0 ∷ 0 ∷ [] in
    let sent = write-txbuf stale 9 14 zeros reply refl (ground arith) in
    let w = written-reg chip stale 9 zeros s (ground arith) (ground arith) q in
    ap (λ tx. chip.reg (exchange_all chip tx s).1 q) sent ∙ w ∙ ground arith

made-IsSafe : (t : Thermal) → IsSafe (make_safe t)
unfolding callbacks
made-IsSafe t = make_safe-IsSafe [] t

module _ (chip : Chip) (head : HeadChip) (b : Buses) where
  -- The handlers, each called once, in order
  pub told : List Listener → Machine chip head → Machine chip head
  told [] m = m
  told (l ∷ ls) m = told ls (handler chip head b l m).1

  pub chain-told :
      (chain : NotifierChain) (ls : List Listener) (m : Machine chip head)
      → chain.call_chain (map (handler chip head b) ls) m ≡ told ls m
  unfolding told pic_dms_handler head_dms_handler thermal_dms_handler
  chain-told chain [] m = chain.end_lem m
  chain-told chain (pic_listener ∷ ls) m = chain.next_lem _ _ m refl ∙ chain-told chain ls _
  chain-told chain (head_listener ∷ ls) m = chain.next_lem _ _ m refl ∙ chain-told chain ls _
  chain-told chain (thermal_listener ∷ ls) m = chain.next_lem _ _ m refl ∙ chain-told chain ls _

  pub told-pulsedev :
      (ls : List Listener) (m : Machine chip head) → (told ls m).pulsedev ≡ m.pulsedev
  unfolding told pic_dms_handler head_dms_handler thermal_dms_handler
  told-pulsedev [] m = refl
  told-pulsedev (pic_listener ∷ ls) m = told-pulsedev ls _
  told-pulsedev (head_listener ∷ ls) m = told-pulsedev ls _
  told-pulsedev (thermal_listener ∷ ls) m = told-pulsedev ls _

  stays-IsSafe :
      (ls : List Listener) (m : Machine chip head) → IsSafe m.thermal → IsSafe (told ls m).thermal
  unfolding told pic_dms_handler head_dms_handler thermal_dms_handler
  stays-IsSafe [] m h = h
  stays-IsSafe (pic_listener ∷ ls) m h = stays-IsSafe ls _ h
  stays-IsSafe (head_listener ∷ ls) m h = stays-IsSafe ls _ h
  stays-IsSafe (thermal_listener ∷ ls) m h = stays-IsSafe ls _ (made-IsSafe m.thermal)

  pub told-IsSafe :
      (ls : List Listener) (m : Machine chip head)
      → any is_thermal ls ≡ true
      → IsSafe (told ls m).thermal
  unfolding told pic_dms_handler head_dms_handler thermal_dms_handler
  told-IsSafe [] m h = cc
  told-IsSafe (pic_listener ∷ ls) m h = told-IsSafe ls _ h
  told-IsSafe (head_listener ∷ ls) m h = told-IsSafe ls _ h
  told-IsSafe (thermal_listener ∷ ls) m h = stays-IsSafe ls _ (made-IsSafe m.thermal)

  -- The chip's registers, and the head's words and bits, after the handlers
  pub told-reg :
      (q : ℕ) (ls : List Listener) (m : Machine chip head)
      → chip.reg (told ls m).pic_state q
        ≡ (if any is_pic ls && b.pic_carried && is_output q then 0 else chip.reg m.pic_state q)
  unfolding told pic_dms_handler head_dms_handler thermal_dms_handler
  told-reg q [] m = refl
  told-reg q (pic_listener ∷ ls) m =
      let i = told-reg q ls (pic_dms_handler chip head b m).1 in
      let z = outputs_zeroed chip b.pic_stale b.pic_reply m.pic_state q in ground arith
  told-reg q (head_listener ∷ ls) m = told-reg q ls _
  told-reg q (thermal_listener ∷ ls) m = told-reg q ls _

  pub told-laser :
      (ls : List Listener) (m : Machine chip head)
      → head.word (told ls m).head_state head_reg_msr_laser ≡ (
          if any is_head ls && b.laser_carried
          then 0
          else head.word m.head_state head_reg_msr_laser)
  unfolding told pic_dms_handler head_dms_handler thermal_dms_handler
  told-laser [] m = refl
  told-laser (pic_listener ∷ ls) m = told-laser ls _
  told-laser (head_listener ∷ ls) m =
      let i = told-laser ls (head_dms_handler chip head b m).1 in
      let s = head_make_safe_lem head b.motor_carried b.laser_carried b.uv_carried m.head_state in
      let w = s.2 in ground arith
  told-laser (thermal_listener ∷ ls) m = told-laser ls _

  pub told-uv :
      (ls : List Listener) (m : Machine chip head)
      → head.word (told ls m).head_state head_reg_uv_led
        ≡ (if any is_head ls && b.uv_carried then 0 else head.word m.head_state head_reg_uv_led)
  unfolding told pic_dms_handler head_dms_handler thermal_dms_handler
  told-uv [] m = refl
  told-uv (pic_listener ∷ ls) m = told-uv ls _
  told-uv (head_listener ∷ ls) m =
      let i = told-uv ls (head_dms_handler chip head b m).1 in
      let s = head_make_safe_lem head b.motor_carried b.laser_carried b.uv_carried m.head_state in
      let w = s.3 in ground arith
  told-uv (thermal_listener ∷ ls) m = told-uv ls _

  pub told-motor :
      (n : ℕ) (ls : List Listener) (m : Machine chip head)
      → head.bit (told ls m).head_state head_reg_rw_grp n ≡ (
          head.bit m.head_state head_reg_rw_grp n
          || (any is_head ls && b.motor_carried && has_bit 3 n))
  unfolding told pic_dms_handler head_dms_handler thermal_dms_handler
  told-motor n [] m = ground arith
  told-motor n (pic_listener ∷ ls) m = told-motor n ls _
  told-motor n (head_listener ∷ ls) m =
      let i = told-motor n ls (head_dms_handler chip head b m).1 in
      let s = head_make_safe_lem head b.motor_carried b.laser_carried b.uv_carried m.head_state in
      let w = s.0 n in ground arith
  told-motor n (thermal_listener ∷ ls) m = told-motor n ls _
