-- ===== src/Transport/Replay.antt =====
-- state.rs: `ReplayPrefixedIo`, which reads bytes that were read before again, and then the inner
-- stream. The inner stream's read is an argument.
use pd_edge.Common.{
  take-drop_joined, ℕ, zero, suc, ◌+◌, ◌-◌, ◌≤◌, ◌<◌, List, [], ◌∷◌, ◌++◌, true, ◌&&◌, length, take,
  drop, ltb, leb, if◌then◌else◌, ◌≡◌, refl, sym, ap, ◌∙◌, length-take, length-drop, arith,
  Bool-cases, inl, inr,
}
use Prim.Native.Nat.{min}

-- `Poll<io::Result<()>>`, with the bytes that the buffer was given.
pub data Polled : Type 0 where
  ready : List ℕ → Polled
  pending failed : Polled

pub record ReplayPrefixedIo (S : Type 0) : Type 0 where
  pub prefix : List ℕ
  pub prefix_offset : ℕ
  pub inner : S

module _ {S : Type 0} where
  unfoldable pub new : List ℕ → S → ReplayPrefixedIo S
  new prefix inner = record { prefix = prefix; prefix_offset = 0; inner = inner }

  unfoldable pub into_parts : ReplayPrefixedIo S → List ℕ × S
  into_parts io = (
    if leb (length io.prefix) io.prefix_offset then [] else drop io.prefix_offset io.prefix,
    io.inner,
  )

  -- What a read of `to_copy` bytes of the prefix leaves.
  unfoldable pub advance : ℕ → ReplayPrefixedIo S → ReplayPrefixedIo S
  advance to_copy io =
      let end = io.prefix_offset + to_copy in
      if leb (length io.prefix) end
      then record io { prefix = []; prefix_offset = 0 }
      else record io { prefix_offset = end }

  module _ (inner_read : ℕ → S → Polled × S) where
    -- `remaining` is the room in the buffer.
    unfoldable pub poll_read : ℕ → ReplayPrefixedIo S → Polled × ReplayPrefixedIo S
    poll_read remaining io =
        let to_copy = min (length io.prefix - io.prefix_offset) remaining in
        let (polled, inner) = inner_read remaining io.inner in
        if ltb io.prefix_offset (length io.prefix) && ltb 0 remaining
        then (ready (take to_copy (drop io.prefix_offset io.prefix)), advance to_copy io)
        else (polled, record io { inner = inner })

drop_all : (o : ℕ) (xs : List ℕ) → length xs ≤ o → drop o xs ≡ []
drop_all zero [] h = refl
drop_all zero (x ∷ xs) h = absurd (omega arith)
drop_all (suc o) [] h = refl
drop_all (suc o) (x ∷ xs) h = drop_all o xs (omega arith)

unread_drop : (xs : List ℕ) (o : ℕ) → (if leb (length xs) o then [] else drop o xs) ≡ drop o xs
unread_drop xs o = elim (Bool-cases (leb (length xs) o)) [
  | inl e ↦ rw e (sym (drop_all o xs (ground (arith, e))))
  | inr e ↦ rw e refl
]

drop-drop : (o k : ℕ) (xs : List ℕ) → drop k (drop o xs) ≡ drop (o + k) xs
drop-drop zero k xs = let e : k ≡ 0 + k = omega arith in ap (λ n. drop n xs) e
drop-drop (suc o) zero [] = let e : suc o ≡ suc o + 0 = omega arith in ap (λ n. drop n []) e
drop-drop (suc o) (suc k) [] =
    let e : suc (o + suc k) ≡ suc o + suc k = omega arith in ap (λ n. drop n []) e
drop-drop (suc o) k (x ∷ xs) =
    let e : suc (o + k) ≡ suc o + k = omega arith in drop-drop o k xs ∙ ap (λ n. drop n (x ∷ xs)) e

unread_lem :
    {S : Type 0} (io : ReplayPrefixedIo S) → (into_parts io).0 ≡ drop io.prefix_offset io.prefix
unfolding into_parts
unread_lem io = unread_drop io.prefix io.prefix_offset

unread-advance :
    {S : Type 0} (k : ℕ) (io : ReplayPrefixedIo S)
    → ((into_parts (advance k io)).0 ≡ drop (io.prefix_offset + k) io.prefix)
      × ((into_parts (advance k io)).1 ≡ io.inner)
unfolding into_parts advance
unread-advance k io = elim (Bool-cases (leb (length io.prefix) (io.prefix_offset + k))) [
  | inl e ↦ rw e (sym (drop_all (io.prefix_offset + k) io.prefix (ground (arith, e))), refl)
  | inr e ↦ rw e (unread_drop io.prefix (io.prefix_offset + k), refl)
]

-- While bytes of the prefix are left, a read with room for one or more gets at least one of them and
-- no more than it has room for; these and what is left afterwards are, in order, what was left before;
-- and the inner stream is not touched.
pub poll_read_replays :
    {S : Type 0} (inner_read : ℕ → S → Polled × S) (remaining : ℕ) (io : ReplayPrefixedIo S)
    → io.prefix_offset < length io.prefix
    → 0 < remaining
    → (bytes : List ℕ) × ((poll_read inner_read remaining io).0 ≡ ready bytes)
      × (bytes ++ (into_parts (poll_read inner_read remaining io).1).0 ≡ (into_parts io).0)
      × ((into_parts (poll_read inner_read remaining io).1).1 ≡ io.inner)
      × (1 ≤ length bytes)
      × (length bytes ≤ remaining)
unfolding poll_read
poll_read_replays inner_read remaining io left room =
    let o = io.prefix_offset in
    let k = min (length io.prefix - o) remaining in
    let rest = drop o io.prefix in
    let e : ltb o (length io.prefix) ≡ true = ground arith in
    let f : ltb 0 remaining ≡ true = ground arith in
    let long : length (take k rest) ≡ min k (length io.prefix - o) =
      length-take k rest ∙ ap (min k) (length-drop o io.prefix) in
    rw (e, f)
      (
        take k rest,
        refl,
        ap (λ t. take k rest ++ t) ((unread-advance k io).0 ∙ sym (drop-drop o k io.prefix))
            ∙ take-drop_joined k rest
            ∙ sym (unread_lem io),
        (unread-advance k io).1,
        omega (arith, long),
        omega (arith, long),
      )
