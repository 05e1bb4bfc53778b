-- ===== src/Vault/Create/Cleanup.antt =====
-- What `create` leaves behind, on every branch of the pipeline.
use lukscrypt.Prelude.{
  ℕ, Text, true, false, Option, none, some, List, [], ◌∷◌, refl, arith, text_beq_refl, ltb, ◌*◌,
  ◌%◌, ◌^◌, text,
}
use lukscrypt.Sys.{ok, err}
use lukscrypt.Sys.Ensures.{Ensures, Ensures-bind, Ensures-if, Exit-cases}
use lukscrypt.Vault.Access.Held.{Held, nothing, next}
use lukscrypt.Vault.Disk.{check_disk_space, required_bytes}
use lukscrypt.Vault.Create.Allocate.{ensure_loop_support, allocate_file, create_file, report_sizes}
use lukscrypt.Vault.Create.{
  img_path, allocate, report, look_for_leftovers, check_loop, check_space, create,
  loop_control_path,
}
use lukscrypt.Vault.Create.Holds.{Holds, IsSettled, Settles, undo_allocated_lem, encrypt_lem}

module _ (name path : Text) (size_gb : ℕ) (password mount_point : Text) where
  report_sizes_lem :
      (h : Held) (sizes : List (Option ℕ))
      → Holds false false true h
      → Ensures
          (next (img_path path name) name mount_point)
          (λ h' _. Holds false false true h')
          h
          (report_sizes size_gb sizes)
  unfolding report_sizes
  report_sizes_lem h [] k = k
  report_sizes_lem h (none ∷ more) k = report_sizes_lem h more k
  report_sizes_lem h (some size ∷ more) k = λ _. report_sizes_lem h more k

  create_file_lem :
      (h : Held)
      → Holds false false false h
      → Ensures
          (next (img_path path name) name mount_point)
          (λ h' _. Holds false false true h')
          h
          (create_file (img_path path name) size_gb)
  unfolding create_file
  create_file_lem h k = elim [
    | err e ↦ ground (arith, text_beq_refl (img_path path name))
    | ok t ↦
        Ensures-bind _ _ _ (report_sizes size_gb t.0) _ _
          (report_sizes_lem _ t.0 (ground (arith, text_beq_refl (img_path path name))))
          λ h' _ k'. k'
  ]

  allocate_file_lem :
      (h : Held)
      → Holds false false false h
      → Ensures
          (next (img_path path name) name mount_point)
          (λ h' _. Holds false false true h')
          h
          (allocate_file (img_path path name) size_gb)
  unfolding allocate_file
  allocate_file_lem h k =
      Exit-cases _ (λ out _. ground (arith, text_beq_refl (img_path path name)))
        λ out e _. create_file_lem _ (ground (arith, text_beq_refl (img_path path name)))

  allocate_lem :
      (h : Held)
      → Holds false false false h
      → Settles name path size_gb password mount_point h
          (allocate name path size_gb password mount_point)
  unfolding allocate
  allocate_lem h k = λ _.
      Ensures-bind _ _ _ (allocate_file (img_path path name) size_gb) _ _ (allocate_file_lem h k)
        λ h'. elim [
          | none ↦ λ k'. encrypt_lem name path size_gb password mount_point h' k'
          | some e ↦ λ k'. undo_allocated_lem name path size_gb password mount_point h' _ _ k'
        ]

  report_lem :
      (h : Held) (context error : Text)
      → Holds false false false (record h { absent = true })
      → Settles name path size_gb password mount_point h
          (report name path size_gb password mount_point context error)
  unfolding report
  report_lem h context error k = λ _. ground arith

  look_for_leftovers_lem :
      (h : Held)
      → Holds false false false (record h { absent = true })
      → Settles name path size_gb password mount_point h
          (look_for_leftovers name path size_gb password mount_point)
  unfolding look_for_leftovers
  look_for_leftovers_lem h k = elim [
    | ok size ↦ report_lem _ _ _ (ground arith)
    | err e ↦ elim [
      | ok size ↦ report_lem _ _ _ (ground arith)
      | err e' ↦ allocate_lem _ (ground (arith, text_beq_refl (img_path path name)))
    ]
  ]

  ensure_loop_support_lem :
      (h : Held) (control : Text)
      → Holds false false false (record h { absent = true })
      → Ensures
          (next (img_path path name) name mount_point)
          (λ h' _. Holds false false false (record h' { absent = true }))
          h
          (ensure_loop_support control)
  unfolding ensure_loop_support
  ensure_loop_support_lem h control k = elim [
    | ok size ↦ ground arith
    | err e ↦ λ r. elim [ ok size ↦ ground arith | err e' ↦ ground arith ]
  ]

  check_loop_lem :
      (h : Held)
      → Holds false false false (record h { absent = true })
      → Settles name path size_gb password mount_point h
          (check_loop name path size_gb password mount_point)
  unfolding check_loop
  check_loop_lem h k =
      Ensures-bind _ _ _ (ensure_loop_support loop_control_path) _ _
        (ensure_loop_support_lem h loop_control_path k)
        λ h'. elim [
          | none ↦ λ k'. look_for_leftovers_lem h' k'
          | some e ↦ λ k'. report_lem h' _ _ k'
        ]

  check_disk_space_lem :
      (h : Held)
      → Holds false false false (record h { absent = true })
      → Ensures
          (next (img_path path name) name mount_point)
          (λ h' _. Holds false false false (record h' { absent = true }))
          h
          (check_disk_space path size_gb)
  unfolding check_disk_space
  check_disk_space_lem h k = elim [
    | err e ↦ k
    | ok st ↦
        Ensures-if _ _ (ltb (st.bavail * st.bsize % 2 ^ 64) (required_bytes size_gb)) _ _ _ (λ _. k)
          λ _. k
  ]

  check_space_lem :
      (h : Held)
      → Holds false false false (record h { absent = true })
      → Settles name path size_gb password mount_point h
          (check_space name path size_gb password mount_point)
  unfolding check_space
  check_space_lem h k =
      Ensures-bind _ _ _ (check_disk_space path size_gb) _ _ (check_disk_space_lem h k)
        λ h'. elim [ none ↦ λ k'. check_loop_lem h' k' | some e ↦ λ k'. report_lem h' _ _ k' ]

nothing-Holds : Holds false false false (record nothing { absent = true })
nothing-Holds = record {
  device_held = refl;
  mounted_held = refl;
  image_held = refl;
  unrecorded = refl;
  found_absent = refl;
  in_order = refl;
  unclobbered = refl;
  silent = refl;
}

-- Whatever the system answers, a creation tries to send exactly one terminal event, which is sent
-- once or given up once (at shutdown, or after a minute without room), and it never changes or
-- removes an image that it had not found absent before, never closes a mounted device, and ends in
-- one of two ways: the record is inserted, the image written, the device open and mounted; or there
-- is no record, the image is removed, and the device is unmounted and closed (the clean-up's calls,
-- whose results the code does not read, are taken to do what they are asked).
pub create-IsSettled :
    (name path : Text) (size_gb : ℕ) (password mount_point : Text)
    → Ensures
        (next (img_path path name) name mount_point)
        (λ h _. IsSettled h)
        nothing
        (create name path size_gb password mount_point)
unfolding create
create-IsSettled name path size_gb password mount_point = elim [
  | none ↦ check_space_lem name path size_gb password mount_point nothing nothing-Holds
  | some e ↦
      report_lem name path size_gb password mount_point nothing (text "create storage directory") e
        nothing-Holds
]
