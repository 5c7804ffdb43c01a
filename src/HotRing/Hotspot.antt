-- ===== src/HotRing/Hotspot.antt =====
-- hotring.c: `do_hotspot_shift`, `hotspot_shift` and `hash_get`.
use jeopardy.Prelude.{
  ℕ, zero, suc, ◌+◌, ◌-◌, ◌%◌, Bool, true, false, List, [], ◌∷◌, ltb, leb, length, ◌==◌,
  if◌then◌else◌,
}
use jeopardy.Memory.{Ptr, null, M, out_of_fuel, pure, crash, asks, modify, ◌>>=◌, ◌>>◌}
use jeopardy.HotRing.State.{
  Node, Mem, Calloc, head_of_pointer, load_node, load_head, load_hash, put_node, put_head,
}
use jeopardy.HotRing.Table.{hash_index, load_slot, get_head_node}
use jeopardy.HotRing.Get.{
  Got, get_success, get_access_hot, get_access_cold, get_not_found, raw_hash_get,
}
use jeopardy.HotRing.Rehash.{hotring_rehash}

-- The operations on `double` that the code uses.
pub record Doubles : Type 1 where
  pub Double : Type 0
  pub of_nat : ℕ → Double
  pub plus : Double → Double → Double
  pub times : Double → Double → Double
  pub divided : Double → Double → Double
  pub less : Double → Double → Bool
  pub equal : Double → Double → Bool

-- `hotspot_shift_t`
pub data HotspotShift : Type 0 where
  shift_rehash shift_success : HotspotShift

abbrev pub reset : Node → Node
reset v = let l = v.list in record v { list = record l { counter = 0 } }

-- `list_for_each` that reads and resets the counters, of which the array holds 100000.
unfoldable pub counters_loop : ℕ → Ptr → ℕ → Ptr → M Mem (List ℕ)
counters_loop zero head n cur = λ _. out_of_fuel
counters_loop (suc fuel) head n cur =
    if cur == head then pure [] else if leb 100000 n then crash else do
      v ← load_node cur
      put_node cur (reset v)
      rest ← counters_loop fuel head (n + 1) v.list.addr
      pure (v.list.counter ∷ rest)

-- `list_for_each` up to the node of number `wanted`; null where there is none.
unfoldable pub hottest_loop : ℕ → Ptr → ℕ → ℕ → Ptr → M Mem Ptr
hottest_loop zero head wanted i cur = λ _. out_of_fuel
hottest_loop (suc fuel) head wanted i cur =
    if cur == head
    then pure null
    else if i == wanted
    then pure cur
    else do v ← load_node cur; hottest_loop fuel head wanted (i + 1) v.list.addr

abbrev pub distance : ℕ → ℕ → ℕ
distance i t = if ltb i t then t - i else i - t

module _ (doubles : Doubles) where
  abbrev Double : Type 0
  Double = doubles.Double

  -- The income at node `t`: the sum over the counters from number `i`.
  unfoldable pub income_from : Double → ℕ → ℕ → ℕ → List ℕ → Double → Double
  income_from total nr t i [] income = income
  income_from total nr t i (c ∷ counters) income = income_from total nr t (i + 1) counters (
      doubles.plus income (
        doubles.times (doubles.divided (doubles.of_nat c) total)
          (doubles.of_nat (distance i t % nr))))

  -- The smallest income, its node's number, and the income at the head, from node `t`.
  unfoldable pub coldest_from : Double → List ℕ → ℕ → ℕ → Double → ℕ → Double → Double × ℕ × Double
  unfolding income_from
  coldest_from total counters zero t smallest hottest head_income = (smallest, hottest, head_income)
  coldest_from total counters (suc left) t smallest hottest head_income =
      let income = income_from total (length counters) t 0 counters (doubles.of_nat 0) in
      let at_head = if t == 0 then income else head_income in
      let smaller = doubles.less income smallest in
      coldest_from total counters left (t + 1) (if smaller then income else smallest)
        (if smaller then t else hottest) at_head

  -- `stay_hot`
  unfoldable pub stay_hot : Ptr → M Mem HotspotShift
  stay_hot p = do
    h ← load_head p
    put_head p (record h { counter = 0; active = 0 })
    pure shift_success

  unfoldable pub do_hotspot_shift : ℕ → Ptr → Ptr → M Mem HotspotShift
  unfolding counters_loop hottest_loop coldest_from stay_hot
  do_hotspot_shift fuel p head_node = do
    h ← load_head p
    put_head p (record h { active = 1 })
    v ← load_node head_node
    put_node head_node (reset v)
    rest ← counters_loop fuel head_node 1 v.list.addr
    let counters = v.list.counter ∷ rest
    let (smallest, hottest, head_income) =
        coldest_from (doubles.of_nat h.counter) counters (length counters) 0
          (doubles.of_nat 1000000000) 0 (doubles.of_nat 0)
    if doubles.equal smallest head_income then stay_hot p else do
      w ← load_node head_node
      node ← hottest_loop fuel head_node hottest 1 w.list.addr
      load_head p
      put_head p (head_of_pointer node)
      if doubles.less (doubles.of_nat 5) smallest then pure shift_rehash else stay_hot p

  module _ (calloc : Calloc) (fuel : ℕ) where
    -- `hotspot_shift`: what `*hashp` is afterwards.
    unfoldable pub hotspot_shift : Ptr → ℕ → M Mem Ptr
    hotspot_shift hp index = do
      h ← load_hash hp
      p ← load_slot h index
      head_node ← get_head_node p
      ret ← do_hotspot_shift fuel p head_node
      elim ret [ shift_success ↦ pure hp | shift_rehash ↦ hotring_rehash calloc fuel hp ]

    -- `hash_get`: whether the key was found, what was written through `nodep` and `prevp`, and what
    -- `*hashp` is afterwards. `nr_request` has 31 bits, past which its increment is undefined.
    unfoldable pub hash_get : Ptr → ℕ → M Mem (Bool × Got × Ptr)
    hash_get hp key = do
      n ← asks λ m. m.nr_request
      if leb (2147483647) n then crash else modify λ m. record m { nr_request = n + 1 }
      got ← raw_hash_get fuel hp key
      h ← load_hash hp
      elim got.ret [
        | get_success ↦ pure (true, got, hp)
        | get_access_hot ↦ pure (true, got, hp)
        | get_access_cold ↦
            if leb 5 (n + 1)
            then (do
              new ← hotspot_shift hp (hash_index h key)
              modify λ m. record m { nr_request = 0 }
              pure (true, got, new))
            else pure (true, got, hp)
        | get_not_found ↦ pure (false, got, hp)
      ]
