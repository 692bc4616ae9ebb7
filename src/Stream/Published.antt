-- ===== src/Stream/Published.antt =====
-- What is published when the receiver ends, wherever a call fails or the signal is aborted.
use memeloop_token_center_mi.Common.{
  ℕ, ◌≡◌, refl, sym, ap, ◌∙◌, Bool, true, [], Text, Result, ok, err, throw_if,
}
use memeloop_token_center_mi.Acts.{
  Keeps as Unchanged, Keeps-bind, Acting, pure, resume, resume-ends, replace, ◌>>=◌, ◌>>◌,
}
use memeloop_token_center_mi.Json.Print.{print}
use memeloop_token_center_mi.Stream.Wire.{Bytes, CopyError, Wire, frame}
use memeloop_token_center_mi.Stream.Receiver.{Plan, Surroundings, receive_stream}
use memeloop_token_center_mi.Stream.Profiles.{CopyPlan}
use memeloop_token_center_mi.Stream.Destination.{
  Disk, partial_path, archive_path, pending_path, receipt_path, check_signal, settle, prepare,
  link_both, publish_links, publish, verify_file, receive_file, receipt as document,
}

module _ {S : Type 0} (archive receipt : S → Bool) where
  -- whether the archive and the receipt have their published names
  abbrev names : S → Bool × Bool
  names s = (archive s, receipt s)

  -- A call that leaves both published names as they were, whatever it answers.
  abbrev pub Keeps : {A : Type 0} → Acting CopyError S A → Type 0
  Keeps act = Unchanged names act

  -- What the receiver relies on of the file system, for the plan's paths and their parent: the calls
  -- leave the two names alone, but for the two links, of which each makes its own name where it
  -- returns and touches no other.
  pub record IsDisk (disk : Disk S) (plan : CopyPlan) (parent : Text) : Type 0 where
    pub lstat : Keeps (disk.lstat plan.destination)
    pub readdir : Keeps (disk.readdir plan.destination)
    pub available : Keeps (disk.available plan.destination)
    pub sync_destination : Keeps (disk.sync_directory plan.destination)
    pub open_directory : Keeps (disk.open_directory plan.destination)
    pub sync : (fd : ℕ) → Keeps (disk.sync fd)
    pub close : (fd : ℕ) → Keeps (disk.close fd)
    pub sync_parent : Keeps (disk.sync_directory parent)
    pub create_partial : Keeps (disk.create (partial_path plan))
    pub create_pending : Keeps (disk.create (pending_path plan))
    pub store_partial : (bytes : Bytes) → Keeps (disk.store (partial_path plan) bytes)
    pub store_pending : (bytes : Bytes) → Keeps (disk.store (pending_path plan) bytes)
    pub reread : Keeps (disk.reread (partial_path plan))
    pub aborted : Keeps disk.aborted
    pub link_archive :
        (s : S)
        → (receipt (disk.link (partial_path plan) (archive_path plan) s).1 ≡ receipt s)
          × ((disk.link (partial_path plan) (archive_path plan) s).0 ≡ ok tt
              → archive (disk.link (partial_path plan) (archive_path plan) s).1 ≡ true)
          × (archive s ≡ true
              → archive (disk.link (partial_path plan) (archive_path plan) s).1 ≡ true)
    pub link_receipt :
        (s : S)
        → (archive (disk.link (pending_path plan) (receipt_path plan) s).1 ≡ archive s)
          × ((disk.link (pending_path plan) (receipt_path plan) s).0 ≡ ok tt
              → receipt (disk.link (pending_path plan) (receipt_path plan) s).1 ≡ true)

  -- The receipt is published only where the archive is.
  abbrev pub IsOrdered : S → Type 0
  IsOrdered s = receipt s ≡ true → archive s ≡ true

  -- What holds at the end: where the code returns, both names are there, and where it throws, they
  -- are in order.
  abbrev pub IsPublished : {A : Type 0} → Result CopyError A × S → Type 0
  IsPublished (ok _, s) = (archive s ≡ true) × (receipt s ≡ true)
  IsPublished (err _, s) = IsOrdered s

  archives : {p q : Bool × Bool} → p ≡ q → p.0 ≡ q.0
  archives h = ap (λ p. p.0) h

  receipts : {p q : Bool × Bool} → p ≡ q → p.1 ≡ q.1
  receipts h = ap (λ p. p.1) h

  Keeps-IsOrdered :
      {A : Type 0} (act : Acting CopyError S A) (s : S)
      → Keeps act
      → IsOrdered s
      → IsOrdered (act s).1
  Keeps-IsOrdered act s keeps h r = archives (keeps s) ∙ h (sym (receipts (keeps s)) ∙ r)

  -- A step that leaves the names, and what follows it.
  then-IsPublished :
      {A B : Type 0} (act : Acting CopyError S A) (next : A → Acting CopyError S B) (s : S)
      → Keeps act
      → IsOrdered s
      → ((a : A) (t : S) → IsOrdered t → IsPublished (next a t))
      → IsPublished ((act >>= next) s)
  then-IsPublished act next s keeps h k =
      resume-ends IsPublished (act s) next (λ a _. k a (act s).1 (Keeps-IsOrdered act s keeps h))
        (λ e. Keeps-IsOrdered act s keeps h)

  both-IsPublished :
      {A : Type 0} (r : Result CopyError A × S)
      → archive r.1 ≡ true
      → receipt r.1 ≡ true
      → IsPublished r
  both-IsPublished (ok a, s) h k = (h, k)
  both-IsPublished (err e, s) h k = λ _. h

  -- A step that published, and what follows it and leaves the names.
  IsPublished-then :
      {A B : Type 0} (r : Result CopyError A × S) (next : A → Acting CopyError S B)
      → IsPublished r
      → ((a : A) → Keeps (next a))
      → IsPublished (resume next r)
  IsPublished-then (ok a, s) next (h, k) keeps =
      both-IsPublished (next a s) (archives (keeps a s) ∙ h) (receipts (keeps a s) ∙ k)
  IsPublished-then (err e, s) next h keeps = h

  replaced-IsPublished :
      {A : Type 0} (a : A) (x : Result CopyError (Unit {0}) × S)
      → archive x.1 ≡ true
      → receipt x.1 ≡ true
      → IsPublished (replace (ok a) x)
  replaced-IsPublished a (ok u, s) h k = (h, k)
  replaced-IsPublished a (err e, s) h k = λ _. h

  replaced-IsOrdered :
      (A : Type 0) (e : CopyError) (x : Result CopyError (Unit {0}) × S)
      → IsOrdered x.1
      → IsPublished {A = A} (replace (err e) x)
  replaced-IsOrdered A e (ok u, s) h = h
  replaced-IsOrdered A e (err f, s) h = h

  -- The directory is closed, and this leaves the names.
  IsPublished-finally :
      {A : Type 0} (r : Result CopyError A × S) (last : Acting CopyError S (Unit {0}))
      → Keeps last
      → IsPublished r
      → IsPublished (replace r.0 (last r.1))
  IsPublished-finally (ok a, s) last keeps (h, k) =
      replaced-IsPublished a (last s) (archives (keeps s) ∙ h) (receipts (keeps s) ∙ k)
  IsPublished-finally (err e, s) last keeps h =
      replaced-IsOrdered _ e (last s) (Keeps-IsOrdered last s keeps h)

  module _ (disk : Disk S) (plan : CopyPlan) (parent : Text) (law : IsDisk disk plan parent) where
    signal-Keeps : Keeps (check_signal disk)
    unfolding check_signal
    signal-Keeps = Keeps-bind names disk.aborted _ law.aborted (λ b s. refl)

    settle-Keeps : Keeps (settle disk plan parent)
    unfolding settle
    settle-Keeps = Keeps-bind names (check_signal disk) _ signal-Keeps (λ _.
        Keeps-bind names (disk.sync_directory plan.destination) _ law.sync_destination (λ _.
          Keeps-bind names (check_signal disk) _ signal-Keeps (λ _.
            Keeps-bind names (disk.sync_directory parent) _ law.sync_parent
              (λ _. law.create_partial))))

    prepare-Keeps : Keeps (prepare disk plan parent)
    unfolding prepare
    prepare-Keeps = Keeps-bind names (disk.lstat plan.destination) _ law.lstat (λ directory.
        Keeps-bind names (pure (throw_if _ _)) _ (λ s. refl)
          (λ _. Keeps-bind names (disk.readdir plan.destination) _ law.readdir (λ entries.
            Keeps-bind names (pure (throw_if _ _)) _ (λ s. refl)
              (λ _. Keeps-bind names (disk.available plan.destination) _ law.available (λ space.
                Keeps-bind names (pure (throw_if _ _)) _ (λ s. refl) (λ _. settle-Keeps))))))

    -- the second link, once the archive is there
    receipt-IsPublished :
        (fd : ℕ) (s : S)
        → archive s ≡ true
        → IsPublished (
            (check_signal disk
                >> (disk.link (pending_path plan) (receipt_path plan) >> disk.sync fd))
              s)
    receipt-IsPublished fd s h =
        let kept : archive (check_signal disk s).1 ≡ true = archives (signal-Keeps s) ∙ h in
        let t : S = (check_signal disk s).1 in
        let u : S = (disk.link (pending_path plan) (receipt_path plan) t).1 in
        let linked : archive u ≡ true = (law.link_receipt t).0 ∙ kept in
        resume-ends IsPublished (check_signal disk s)
          (λ _. disk.link (pending_path plan) (receipt_path plan) >> disk.sync fd)
          (λ _ _.
            resume-ends IsPublished (disk.link (pending_path plan) (receipt_path plan) t)
              (λ _. disk.sync fd)
              (λ _ e.
                both-IsPublished (disk.sync fd u) (archives (law.sync fd u) ∙ linked)
                  (receipts (law.sync fd u) ∙ (law.link_receipt t).1 e))
              (λ _ _. linked))
          (λ _ _. kept)

    -- the first link
    archive-IsPublished : (fd : ℕ) (s : S) → IsOrdered s → IsPublished (link_both disk plan fd s)
    unfolding link_both
    archive-IsPublished fd s h = then-IsPublished (check_signal disk) _ s signal-Keeps h (λ _ t k.
        let u : S = (disk.link (partial_path plan) (archive_path plan) t).1 in
        resume-ends IsPublished (disk.link (partial_path plan) (archive_path plan) t)
          (λ _.
            disk.sync fd
            >> (check_signal disk
                >> (disk.link (pending_path plan) (receipt_path plan) >> disk.sync fd)))
          (λ _ e.
            let linked : archive u ≡ true = (law.link_archive t).1 e in
            let synced : archive (disk.sync fd u).1 ≡ true = archives (law.sync fd u) ∙ linked in
            resume-ends IsPublished (disk.sync fd u) _
              (λ _ _. receipt-IsPublished fd (disk.sync fd u).1 synced) (λ _ _. synced))
          (λ _ r. (law.link_archive t).2 (k (sym (law.link_archive t).0 ∙ r))))

    links-IsPublished : (s : S) → IsOrdered s → IsPublished (publish_links disk plan s)
    unfolding publish_links
    links-IsPublished s h =
        then-IsPublished (disk.open_directory plan.destination) _ s law.open_directory h (λ fd t k.
          IsPublished-finally (link_both disk plan fd t) (disk.close fd) (law.close fd)
            (archive-IsPublished fd t k))

    pair-IsPublished : (copied : ℕ) (s : S) → IsOrdered s → IsPublished (publish disk plan copied s)
    unfolding publish
    pair-IsPublished copied s h = then-IsPublished (check_signal disk) _ s signal-Keeps h (λ _ t h.
        then-IsPublished (disk.create (pending_path plan)) _ t law.create_pending h (λ _ t h.
          then-IsPublished (disk.store (pending_path plan) _) _ t (law.store_pending _) h
            (λ _ t h. links-IsPublished t h)))

    -- Whatever the file system, the socket and the signal answer, and wherever a call fails: where
    -- `receiveFile` returns, the archive and the receipt are both published; where it throws, the receipt
    -- is published only if the archive is, provided that this was so at the start.
    pub receive_file-IsPublished :
        (digest : Bytes → Bytes) (core : Plan) (verify : ℕ) (around : Surroundings) (wire : Wire)
        (s : S)
        → IsOrdered s
        → IsPublished (receive_file disk digest core verify plan parent around wire s)
    unfolding receive_file verify_file
    receive_file-IsPublished digest core verify around wire s h =
        then-IsPublished (prepare disk plan parent) _ s prepare-Keeps h (λ _ t h.
          then-IsPublished (pure (receive_stream digest core around wire)) _ t (λ s. refl) h
            (λ received t h.
              then-IsPublished (disk.store (partial_path plan) received.content) _ t
                (law.store_partial received.content) h
                (λ _ t h.
                  then-IsPublished (verify_file disk digest core verify plan) _ t
                    (Keeps-bind names (disk.reread (partial_path plan)) _ law.reread
                      (λ file s. refl))
                    h
                    (λ _ t h.
                      IsPublished-then (publish disk plan plan.size t) _
                        (pair-IsPublished plan.size t h)
                        (λ _.
                          Keeps-bind names (pure (frame 3 (print (document plan plan.size) []))) _
                            (λ s. refl) (λ reply s. refl))))))
