-- ===== src/Script/Does.antt =====
-- Scripts that end without an exception, with what they do.
use landscape_openwrt.Base.{
  ◌≡◌, refl, ap, ◌∙◌, sym, append_assoc, In-of_left, In-of_right, Result, inl, inr, false, Option,
  none, List, [], ◌∷◌, ◌++◌, In, Text, ok,
}
use landscape_openwrt.Action.{pure, continue, ◌>>=◌, ◌>>◌}
use landscape_openwrt.Script.{
  Exit, exited, finished, Deed, ran, Log, Script, Machine, note, is_success, process, reply_of,
}
use landscape_openwrt.Base.{In-of_append}

-- An action that ends without an exception, and adds the deeds to what was done, among others.
abbrev pub Does : {A : Type 0} → List Deed → Script A → Type 0
Does {A} ds f =
    (log : Log)
    → (a : A) × (new : Log) × (f log ≡ (ok a, new ++ log)) × ((d : Deed) → In d ds → In d new)

module _ {A B : Type 0} (ds es : List Deed) where
  pub Does-bind :
      (f : Script A) (k : A → Script B)
      → Does ds f
      → ((a : A) → Does es (k a))
      → Does (ds ++ es) (f >>= k)
  Does-bind f k df dk log =
      let (a, first, e, done) = df log in
      let (b, second, e2, done2) = dk a (first ++ log) in
      let joined : Path (Result B × Log) (ok b, second ++ (first ++ log))
          (ok b, (second ++ first) ++ log) =
        ap (λ l. (ok b, l)) (sym (append_assoc second first log)) in
      (
        b,
        second ++ first,
        ap (λ p. continue p k) e ∙ e2 ∙ joined,
        λ d h. elim (In-of_append d ds es h) [
          | inl g ↦ In-of_right d second first (done d g)
          | inr g ↦ In-of_left d second first (done2 d g)
        ],
      )

  pub Does-then : (f : Script A) (k : Script B) → Does ds f → Does es k → Does (ds ++ es) (f >> k)
  Does-then f k df dk = Does-bind f (λ _. k) df (λ _. dk)

pub Does-nothing : {A : Type 0} (a : A) → Does [] (pure a)
Does-nothing a log = (a, [], refl, λ d h. h)

pub Does-less : {A : Type 0} (ds : List Deed) (f : Script A) → Does ds f → Does [] f
Does-less ds f df log = let (a, new, e, done) = df log in (a, new, e, λ d h. absurd h)

pub Does-note : (d : Deed) → Does (d ∷ []) (note d)
Does-note d log = (tt, d ∷ [], refl, λ x h. h)

-- Every process comes to an end, whatever its status is.
abbrev pub Finishes : Machine → Type 0
Finishes m =
    (log : Log) (args : List Text) (input : Option Text)
    → (e : Exit) × (out : Text) × (err : Text) × (m.run log args input ≡ finished e out err)

-- A command that always fails, with the same message.
abbrev pub Fails : Machine → List Text → Text → Type 0
Fails m args err =
    (log : Log) (input : Option Text)
    → (e : Exit) × (out : Text) × (is_success e ≡ false)
      × (m.run log args input ≡ finished e out err)

-- A command that never fails.
abbrev pub Succeeds : Machine → List Text → Type 0
Succeeds m args =
    (log : Log) (input : Option Text)
    → (out : Text) × (err : Text) × (m.run log args input ≡ finished (exited 0) out err)

module _ (m : Machine) (finishes : Finishes m) where
  pub process-Does :
      (args : List Text) (input : Option Text) → Does (ran args input ∷ []) (process m args input)
  unfolding process
  process-Does args input log =
      let (e, out, err, h) = finishes log args input in
      ((e, out, err), ran args input ∷ [], ap (λ r. (reply_of r, ran args input ∷ log)) h, λ x h. h)

  pub Does-ran :
      {B : Type 0} (args : List Text) (es : List Deed) (k : Exit × Text × Text → Script B)
      → ((a : Exit × Text × Text) → Does es (k a))
      → Does (ran args none ∷ es) (process m args none >>= k)
  Does-ran args es k dk =
      Does-bind (ran args none ∷ []) es (process m args none) k (process-Does args none) dk
