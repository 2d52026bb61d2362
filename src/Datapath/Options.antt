-- ===== src/Datapath/Options.antt =====
-- The loop over the TCP options in `key_extract` (project/flow.c).
pub mod Endings
use controller_project.Base.{
  ℕ, zero, suc, ◌+◌, ◌-◌, ◌*◌, List, [], ◌∷◌, Bool, true, false, get_or, ltb, ◌==◌, if◌then◌else◌,
}
use controller_project.Datapath.{Packet}

-- Where the loop over the options stands: still running when the rounds are used up, or stopped at
-- an offset.
pub data Scan : Type 0 where
  running : Scan
  stopped : ℕ → Scan

-- `while (*(opt_ptr + opt_off) != 3 && opt_off < opt_len - 2)`
unfoldable pub scan : ℕ → List ℕ → ℕ → ℕ → Scan
scan zero opt opt_len opt_off = Scan.running
scan (suc fuel) opt opt_len opt_off =
    let over = scan fuel opt opt_len (opt_off + get_or opt (opt_off + 1) 0) in
    let next = scan fuel opt opt_len (opt_off + 1) in
    if get_or opt opt_off 0 == 3
    then Scan.stopped opt_off
    else if ltb (opt_off + 2) opt_len
    then (if get_or opt opt_off 0 == 1 then next else over)
    else Scan.stopped opt_off

-- The three bytes copied to `wscale` where the loop stopped.
unfoldable pub scale_at : List ℕ → ℕ → List ℕ
scale_at opt off =
    if get_or opt off 0 == 3
    then 3 ∷ get_or opt (off + 1) 0 ∷ get_or opt (off + 2) 0 ∷ []
    else 0 ∷ 0 ∷ 0 ∷ []

-- What the options say; `hangs` when the loop has not ended after `fuel` rounds.
pub data Scale : Type 0 where
  hangs : Scale
  scale : List ℕ → Scale

unfoldable pub read_scale : ℕ → Packet → Scale
unfolding scan scale_at
read_scale fuel p =
    if p.syn
    then elim (scan fuel p.options (p.doff * 4 - 20) 0) [
      | running ↦ Scale.hangs
      | stopped off ↦ Scale.scale (scale_at p.options off)
    ]
    else Scale.scale (0 ∷ 0 ∷ 0 ∷ [])
