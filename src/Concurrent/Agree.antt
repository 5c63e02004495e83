-- ===== src/Concurrent/Agree.antt =====
-- A `BasicConcurrentMapImpl` answers as a finite map.
use corekit.Base.{
  ◌≡◌, refl, ap, ap₂, ◌∙◌, subst, Bool, true, false, Option, none, some, List, [], ◌∷◌, String,
  if◌then◌else◌,
}
use corekit.Concurrent.Map.{
  Writing, written, not_inserted, not_assigned, lookup, put, delete, write, insert_or_assign,
  insert_if_absent, erase_key, told, found, try_get, contains, thrown, Cause, bad_alloc, other,
}
use corekit.Concurrent.Finite.{
  IsEquality, Distinct, lookup-put, lookup-delete, Distinct-put, Distinct-delete,
}
use corekit.Concurrent.Calls.{
  Call, upserts, inserts_or_assigns, inserts_if_absent, finds, contains_asked, erases, gets, clears,
  Reply, returned, told_inserted, got, wrote, answered, refusal, write_reply, map_call, map_run,
  at_key, after_write, write_status, finite_at, key_value, finite_run,
}

-- A table without repeated keys, and the map that it stands for.
record Agrees {ℓ κ} {K : Type ℓ} {V : Type κ} {eq : K → K → Bool} (law : IsEquality eq)
    (m : List (K × V)) (f : K → Option V) : Type (ℓ ⊔ κ) where
  distinct : Distinct {V = V} law m
  view : (k : K) → lookup eq m k ≡ f k

module _ {ℓ κ} {K : Type ℓ} {V : Type κ} {eq : K → K → Bool} (law : IsEquality eq)
    {m : List (K × V)} {f : K → Option V} (v : Agrees law m f) where
  put-Agrees : (key : K) (a : V) → Agrees law (put eq m key a) (at_key eq f key (some a))
  unfolding at_key
  put-Agrees key a = record {
    distinct = Distinct-put law m key a v.distinct;
    view = λ k. lookup-put law m key a k ∙ ap (λ o. if eq key k then some a else o) (v.view k);
  }

  write-Agrees :
      (key : K) (a : V) (e : Writing V) (message : String)
      → Agrees law (write eq m key a e message).1 (after_write eq f key a e)
  unfolding write
  write-Agrees key a written message = put-Agrees key a
  write-Agrees key a (not_inserted cause) message = v
  write-Agrees key a (not_assigned cause left) message = put-Agrees key left

  thrown-refusal : (cause : Cause) (message : String) → thrown cause message ≡ refusal cause message
  thrown-refusal bad_alloc message = refl
  thrown-refusal other message = refl

  write-status :
      (key : K) (a : V) (e : Writing V) (message : String)
      → (write eq m key a e message).0 ≡ write_status eq e message
  unfolding write
  write-status key a written message = refl
  write-status key a (not_inserted cause) message = thrown-refusal cause message
  write-status key a (not_assigned cause left) message = thrown-refusal cause message

  -- What is told of the insertion, and the status.
  write-reply :
      (key : K) (a : V) (e : Writing V) (inserted : Bool) (message : String)
      → told_inserted (told e inserted) (write eq m key a e message).0
        ≡ write_reply eq e inserted message
  unfolding write
  write-reply key a written inserted message = refl
  write-reply key a (not_inserted cause) inserted message =
      ap (told_inserted none) (thrown-refusal cause message)
  write-reply key a (not_assigned cause left) inserted message =
      ap (told_inserted none) (thrown-refusal cause message)

  delete-Agrees : (key : K) → Agrees law (delete eq m key) (at_key eq f key none)
  unfolding at_key
  delete-Agrees key = record {
    distinct = Distinct-delete law m key v.distinct;
    view = λ k.
        lookup-delete law m key k v.distinct ∙ ap (λ o. if eq key k then none else o) (v.view k);
  }

abbrev OnlyReads {ℓ κ} : {K : Type ℓ} {V : Type κ} → Call K V → Type 0
OnlyReads (finds key) = Unit
OnlyReads (contains_asked key) = Unit
OnlyReads (gets key out_is_null) = Unit
OnlyReads c = ⊥

record Same {ℓ κ} {K : Type ℓ} {V : Type κ} {eq : K → K → Bool} (law : IsEquality eq)
    (out : Reply V × List (K × V)) (spec : Reply V × (K → Option V)) : Type (ℓ ⊔ κ) where
  reply : out.0 ≡ spec.0
  agrees : Agrees law out.1 spec.1

module _ {ℓ κ} {K : Type ℓ} {V : Type κ} {eq : K → K → Bool} (law : IsEquality eq)
    {m : List (K × V)} {f : K → Option V} (v : Agrees law m f) where
  insert_or_assign-Same :
      (o : Option V) (key : K) (a : V) (e : Writing V)
      → let out = insert_or_assign eq o m key a e in
        Same law (told_inserted out.0 out.1, out.2) (finite_at eq o f (inserts_or_assigns key a e))
  unfolding insert_or_assign finite_at
  insert_or_assign-Same none key a e = record {
    reply = write-reply law v key a e true _;
    agrees = write-Agrees law v key a e _;
  }
  insert_or_assign-Same (some w) key a e = record {
    reply = write-reply law v key a e false _;
    agrees = write-Agrees law v key a e _;
  }

  insert_if_absent-Same :
      (o : Option V) (key : K) (a : V) (e : Writing V)
      → let out = insert_if_absent eq o m key a e in
        Same law (returned out.0, out.1) (finite_at eq o f (inserts_if_absent key a e))
  unfolding insert_if_absent finite_at
  insert_if_absent-Same none key a e = record {
    reply = ap returned (write-status law v key a e _);
    agrees = write-Agrees law v key a e _;
  }
  insert_if_absent-Same (some w) key a e = record { reply = refl; agrees = v }

  erase_key-Same :
      (o : Option V) (key : K)
      → let out = erase_key eq o m key in
        Same law (returned out.0, out.1) (finite_at eq o f (erases key))
  unfolding erase_key finite_at
  erase_key-Same none key = record { reply = refl; agrees = v }
  erase_key-Same (some w) key = record { reply = refl; agrees = delete-Agrees law v key }

  found-reply : (o : Option V) (key : K) → got (found o) ≡ (finite_at eq o f (finds key)).0
  unfolding found finite_at
  found-reply none key = refl
  found-reply (some w) key = refl

  contains-reply :
      (o : Option V) (key : K) → answered (contains o) ≡ (finite_at eq o f (contains_asked key)).0
  unfolding finite_at
  contains-reply none key = refl
  contains-reply (some w) key = refl

  try_get-reply :
      (o : Option V) (key : K) (out_is_null : Bool)
      → let out = try_get o out_is_null in
        wrote out.0 out.1 ≡ (finite_at eq o f (gets key out_is_null)).0
  unfolding try_get finite_at
  try_get-reply none key true = refl
  try_get-reply (some w) key true = refl
  try_get-reply none key false = refl
  try_get-reply (some w) key false = refl

  -- A call that only reads.
  reads-Agrees : (o : Option V) (c : Call K V) → OnlyReads c → Agrees law m (finite_at eq o f c).1
  unfolding finite_at
  reads-Agrees none (finds key) r = v
  reads-Agrees (some w) (finds key) r = v
  reads-Agrees none (contains_asked key) r = v
  reads-Agrees (some w) (contains_asked key) r = v
  reads-Agrees none (gets key true) r = v
  reads-Agrees (some w) (gets key true) r = v
  reads-Agrees none (gets key false) r = v
  reads-Agrees (some w) (gets key false) r = v
  reads-Agrees o (upserts key a e) r = absurd r
  reads-Agrees o (inserts_or_assigns key a e) r = absurd r
  reads-Agrees o (inserts_if_absent key a e) r = absurd r
  reads-Agrees o (erases key) r = absurd r
  reads-Agrees o clears r = absurd r

  -- A call on the table, by what it finds there.
  found-Same :
      (c : Call K V) → Same law (map_call eq m c) (finite_at eq (key_value eq (lookup eq m) c) f c)
  unfolding map_call finite_at Distinct lookup
  found-Same (upserts key a e) = record {
    reply = ap returned (write-status law v key a e _);
    agrees = write-Agrees law v key a e _;
  }
  found-Same (inserts_or_assigns key a e) = insert_or_assign-Same (lookup eq m key) key a e
  found-Same (inserts_if_absent key a e) = insert_if_absent-Same (lookup eq m key) key a e
  found-Same (finds key) = record {
    reply = found-reply (lookup eq m key) key;
    agrees = reads-Agrees (lookup eq m key) (finds key) tt;
  }
  found-Same (contains_asked key) = record {
    reply = contains-reply (lookup eq m key) key;
    agrees = reads-Agrees (lookup eq m key) (contains_asked key) tt;
  }
  found-Same (erases key) = erase_key-Same (lookup eq m key) key
  found-Same (gets key out_is_null) = record {
    reply = try_get-reply (lookup eq m key) key out_is_null;
    agrees = reads-Agrees (lookup eq m key) (gets key out_is_null) tt;
  }
  found-Same clears = record { reply = refl; agrees = record { distinct = tt; view = λ k. refl } }

  call-Same : (c : Call K V) → Same law (map_call eq m c) (finite_at eq (key_value eq f c) f c)
  call-Same c =
      subst (λ g. Same law (map_call eq m c) (finite_at eq (key_value eq g c) f c))
        (λ i k. v.view k i) (found-Same c)

run-Agrees {ℓ κ} :
    {K : Type ℓ} {V : Type κ} {eq : K → K → Bool} (law : IsEquality eq) (calls : List (Call K V))
    {m : List (K × V)} {f : K → Option V}
    → Agrees law m f
    → map_run eq m calls ≡ finite_run eq f calls
unfolding map_run finite_run
run-Agrees law [] v = refl
run-Agrees {eq = eq} law (c ∷ cs) {m = m} {f = f} v =
    let s = call-Same law v c in
    ap₂ ◌∷◌ s.reply (
      run-Agrees law cs {m = (map_call eq m c).1} {f = (finite_at eq (key_value eq f c) f c).1}
        s.agrees)

-- An empty map answers every history of calls, also one in which writes throw, as a function from
-- keys to values does that starts with none.
pub map_run-finite {ℓ κ} :
    {K : Type ℓ} {V : Type κ} {eq : K → K → Bool}
    → IsEquality eq
    → (calls : List (Call K V)) → map_run eq [] calls ≡ finite_run eq (λ k. none) calls
unfolding Distinct lookup
map_run-finite law calls = run-Agrees law calls (record { distinct = tt; view = λ k. refl })
