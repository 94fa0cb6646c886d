-- ===== src/Client/Ready.antt =====
-- A client with a configuration and a valid buffer, and the steps of its loop.
use native.Mathlib.Nat.{mul-mod_right}
use pmu_data_analytics.Base.{
  ℕ, ◌*◌, ◌%◌, ◌≤◌, ◌<◌, ◌≡◌, refl, ap, subst, ◌∙◌, ◌⊎◌, inl, inr, ok, List, [], ◌∷◌, ◌++◌, map,
  length, concat, replicate, length-append, length-replicate, All, All-append, arith,
}
use pmu_data_analytics.Base.Bytes.{Bytes}
use pmu_data_analytics.Base.Bytes.Bounds.{first_slice}
use pmu_data_analytics.Client.{heap, PdcClient, cleared, store_frame, get_buffer_contents}
use pmu_data_analytics.Client.Store.{IsStack, IsPast, store_frame-IsStack, store_frame-heap}

-- A frame on the heap is of the frame size and not from the future.
abbrev pub IsStored : ℕ → ℕ → ℕ × Bytes → Type 0
IsStored now size entry = (entry.0 ≤ now) × (length entry.1 ≡ size)

abbrev pub OnStack : PdcClient → Type 0
OnStack client =
    (memory : Bytes) × IsStack client memory × (client.max_buffer_size % client.frame_size ≡ 0)

abbrev pub OnHeap : ℕ → PdcClient → Type 0
OnHeap now client =
    (frames : List (ℕ × Bytes)) × (client.buffer ≡ heap frames)
    × All (IsStored now client.frame_size) frames

-- A client that can store frames and send its buffer: the limit of a memory on the stack is a number
-- of whole frames, and so is what is on the heap.
pub record IsReady (now : ℕ) (client : PdcClient) : Type 0 where
  pub size_pos : 0 < client.frame_size
  pub holds : OnStack client ⊎ OnHeap now client

-- The client has the same configuration and the same sizes.
pub record SameSetup (before after : PdcClient) : Type 0 where
  pub same_size : after.frame_size ≡ before.frame_size
  pub same_config : after.config ≡ before.config
  pub same_idcode : after.idcode ≡ before.idcode

pub SameSetup-refl : (client : PdcClient) → SameSetup client client
SameSetup-refl client = record { same_size = refl; same_config = refl; same_idcode = refl }

pub SameSetup-trans : (a b c : PdcClient) → SameSetup a b → SameSetup b c → SameSetup a c
SameSetup-trans a b c h k = record {
  same_size = k.same_size ∙ h.same_size;
  same_config = k.same_config ∙ h.same_config;
  same_idcode = k.same_idcode ∙ h.same_idcode;
}

All-mono {ℓ} :
    {A : Type ℓ} (P Q : A → Type 0) (xs : List A) → ((x : A) → P x → Q x) → All P xs → All Q xs
All-mono P Q [] f h = tt
All-mono P Q (x ∷ xs) f h = (f x h.0, All-mono P Q xs f h.1)

All-behind {ℓ} : {A : Type ℓ} (P : A → Type 0) (xs ys : List A) → All P (xs ++ ys) → All P ys
All-behind P [] ys h = h
All-behind P (x ∷ xs) ys h = All-behind P xs ys h.1

pub IsReady-later :
    (now later : ℕ) (client : PdcClient) → now ≤ later → IsReady now client → IsReady later client
IsReady-later now later client l h = elim h.holds [
  | inl on_stack ↦ record { size_pos = h.size_pos; holds = inl on_stack }
  | inr (frames, e, all) ↦ record {
    size_pos = h.size_pos;
    holds = inr (
      frames,
      e,
      All-mono (IsStored now client.frame_size) (IsStored later client.frame_size) frames
          (λ entry stored. (omega (arith, stored.0), stored.1)) all,
    );
  }
]

-- A frame of the frame size is stored.
pub store_frame-IsReady :
    (now : ℕ) (client : PdcClient) (frame_data : Bytes)
    → IsReady now client
    → length frame_data ≡ client.frame_size
    → (stored : PdcClient) × (store_frame now client frame_data ≡ ok stored)
      × IsReady now stored
      × SameSetup client stored
store_frame-IsReady now client frame_data h len = elim h.holds [
  | inl (memory, valid, whole) ↦
      let (o, stored, written, e, valid_after, place, same, bytes) =
        store_frame-IsStack now client memory frame_data valid len in
      let size : stored.frame_size ≡ client.frame_size =
        ap (λ (c : PdcClient). c.frame_size) same in
      let limit : stored.max_buffer_size ≡ client.max_buffer_size =
        ap (λ (c : PdcClient). c.max_buffer_size) same in
      (
        stored,
        e,
        record {
          size_pos = omega (arith, size, h.size_pos);
          holds = inl (written, valid_after, rw (limit, size) whole);
        },
        record {
          same_size = size;
          same_config = ap (λ (c : PdcClient). c.config) same;
          same_idcode = ap (λ (c : PdcClient). c.idcode) same;
        },
      )
  | inr (frames, on_heap, all) ↦
      let past =
        All-mono (IsStored now client.frame_size) (IsPast now client.duration) frames
          (λ entry stored. stored.0) all in
      let (gone, kept, e, split, old, fresh) =
        store_frame-heap now client frames frame_data on_heap past in
      let all_kept = All-behind (IsStored now client.frame_size) gone kept (
        subst (All (IsStored now client.frame_size)) split (
          All-append (IsStored now client.frame_size) frames ((now, frame_data) ∷ []) all
            ((omega arith, len), tt))) in
      (
        record client { buffer = heap kept },
        e,
        record { size_pos = h.size_pos; holds = inr (kept, refl, all_kept) },
        record { same_size = refl; same_config = refl; same_idcode = refl },
      )
]

length-concat_stored :
    (now n : ℕ) (frames : List (ℕ × Bytes))
    → All (IsStored now n) frames
    → length (concat (map (λ (entry : ℕ × Bytes). entry.1) frames)) ≡ n * length frames
length-concat_stored now n [] h = omega arith
length-concat_stored now n ((t, frame) ∷ frames) h = omega (
  arith,
  length-append frame (concat (map (λ (entry : ℕ × Bytes). entry.1) frames)),
  length-concat_stored now n frames h.1,
  h.0.1,
)

-- The contents of the buffer are a number of whole frames.
pub get_buffer_contents-IsReady :
    (now : ℕ) (client : PdcClient)
    → IsReady now client
    → (contents : Bytes) × (get_buffer_contents client ≡ ok contents)
      × (length contents % client.frame_size ≡ 0)
unfolding get_buffer_contents
get_buffer_contents-IsReady now client h = elim h.holds [
  | inl (memory, valid, whole) ↦
      let limit : client.max_buffer_size ≤ length memory =
        omega (arith, valid.limit_fits, valid.memory_len) in
      let (contents, e, len) = first_slice {E = ⊥} memory client.max_buffer_size limit in
      (contents, rw (valid.on_stack, e) refl, rw len whole)
  | inr (frames, on_heap, all) ↦ (
    concat (map (λ (entry : ℕ × Bytes). entry.1) frames),
    rw on_heap refl,
    rw (length-concat_stored now client.frame_size frames all)
        (mul-mod_right client.frame_size (length frames)),
  )
]

-- Clearing the buffer keeps a client ready.
pub cleared-IsReady :
    (now : ℕ) (client : PdcClient)
    → IsReady now client
    → IsReady now (record client { buffer = cleared client.buffer })
cleared-IsReady now client h = elim h.holds [
  | inl (memory, valid, whole) ↦ record {
    size_pos = h.size_pos;
    holds = inl (
      replicate (length memory) 0,
      record {
        on_stack = ap cleared valid.on_stack;
        memory_len = length-replicate (length memory) 0 ∙ valid.memory_len;
        frame_fits = valid.frame_fits;
        limit_fits = valid.limit_fits;
        offset_le = valid.offset_le;
      },
      whole,
    );
  }
  | inr (frames, on_heap, all) ↦ record {
    size_pos = h.size_pos;
    holds = inr ([], ap cleared on_heap, tt);
  }
]
