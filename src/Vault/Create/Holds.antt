-- ===== src/Vault/Create/Holds.antt =====
-- What the pipeline holds between two stages, and how the stages from the format of the image on
-- settle it.
use lukscrypt.Prelude.{ℕ, ◌+◌, Text, Bool, true, false, none, some, ◌≡◌, arith, text_beq_refl}
use lukscrypt.Sys.{Prog, ok, err}
use lukscrypt.Sys.Ensures.{Ensures, Exit-cases}
use lukscrypt.Vault.Access.Held.{Held, next}
use lukscrypt.Vault.Create.{
  img_path, undo_mounted, persist, finished, permit, mount_new, undo_opened, make_dir,
  make_filesystem, undo_allocated, open_new, encrypt,
}

-- What the pipeline holds between two stages.
pub record Holds (device mounted image : Bool) (h : Held) : Type 0 where
  pub device_held : h.device ≡ device
  pub mounted_held : h.mounted ≡ mounted
  pub image_held : h.image ≡ image
  pub unrecorded : h.recorded ≡ false
  pub found_absent : h.absent ≡ true
  pub in_order : h.early_close ≡ false
  pub unclobbered : h.clobbered ≡ false
  pub silent : h.terminals + h.given_up ≡ 0

-- The end: one terminal event, sent or given up, and everything is held or nothing is.
pub record IsSettled (h : Held) : Type 0 where
  pub reported_once : h.terminals + h.given_up ≡ 1
  pub ordered : h.early_close ≡ false
  pub spared : h.clobbered ≡ false
  pub created_device : h.device ≡ h.recorded
  pub created_mount : h.mounted ≡ h.recorded
  pub created_image : h.image ≡ h.recorded

module _ (name path : Text) (size_gb : ℕ) (password mount_point : Text) where
  abbrev pub Settles : Held → Prog (Unit {0}) → Type 0
  Settles h m = Ensures (next (img_path path name) name mount_point) (λ h' _. IsSettled h') h m

  undo_mounted_lem :
      (h : Held) (context error : Text)
      → Holds true true true h
      → Settles h (undo_mounted name path size_gb password mount_point context error)
  unfolding undo_mounted
  undo_mounted_lem h context error k = λ _ _ _ _ _.
      ground
        (arith, text_beq_refl name, text_beq_refl mount_point, text_beq_refl (img_path path name))

  persist_lem :
      (h : Held)
      → Holds true true true h
      → Settles h (persist name path size_gb password mount_point)
  unfolding persist finished
  persist_lem h k = elim [
    | ok v ↦ λ _. ground arith
    | err e ↦ undo_mounted_lem _ _ _ (ground arith)
  ]

  permit_lem :
      (h : Held)
      → Holds true true true h
      → Settles h (permit name path size_gb password mount_point)
  unfolding permit
  permit_lem h k = elim [ none ↦ persist_lem h k | some e ↦ undo_mounted_lem h _ _ k ]

  mount_new_lem :
      (h : Held)
      → Holds true false true h
      → Settles h (mount_new name path size_gb password mount_point)
  unfolding mount_new
  mount_new_lem h k =
      Exit-cases _ (λ out. permit_lem _ (ground (arith, text_beq_refl mount_point)))
        λ out e _ _ _ _. ground (arith, text_beq_refl name, text_beq_refl (img_path path name))

  undo_opened_lem :
      (h : Held) (context error : Text)
      → Holds true false true h
      → Settles h (undo_opened name path size_gb password mount_point context error)
  unfolding undo_opened
  undo_opened_lem h context error k =
      λ _ _ _. ground (arith, text_beq_refl name, text_beq_refl (img_path path name))

  make_dir_lem :
      (h : Held)
      → Holds true false true h
      → Settles h (make_dir name path size_gb password mount_point)
  unfolding make_dir
  make_dir_lem h k = λ _. elim [ none ↦ mount_new_lem h k | some e ↦ undo_opened_lem h _ _ k ]

  make_filesystem_lem :
      (h : Held)
      → Holds true false true h
      → Settles h (make_filesystem name path size_gb password mount_point)
  unfolding make_filesystem
  make_filesystem_lem h k =
      λ _. Exit-cases _ (λ out. make_dir_lem h k) λ out e. undo_opened_lem h _ _ k

  pub undo_allocated_lem :
      (h : Held) (context error : Text)
      → Holds false false true h
      → Settles h (undo_allocated name path size_gb password mount_point context error)
  unfolding undo_allocated
  undo_allocated_lem h context error k = λ _ _. ground (arith, text_beq_refl (img_path path name))

  open_new_lem :
      (h : Held)
      → Holds false false true h
      → Settles h (open_new name path size_gb password mount_point)
  unfolding open_new
  open_new_lem h k = λ _.
      Exit-cases _ (λ out. make_filesystem_lem _ (ground (arith, text_beq_refl name)))
        λ out e. undo_allocated_lem _ _ _ (ground arith)

  pub encrypt_lem :
      (h : Held)
      → Holds false false true h
      → Settles h (encrypt name path size_gb password mount_point)
  unfolding encrypt
  encrypt_lem h k = λ _.
      Exit-cases _ (λ out. open_new_lem _ (ground (arith, text_beq_refl (img_path path name))))
        λ out e. undo_allocated_lem _ _ _ (ground (arith, text_beq_refl (img_path path name)))
