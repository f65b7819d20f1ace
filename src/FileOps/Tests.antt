-- ===== src/FileOps/Tests.antt =====
-- A file opened for writing twice, and closed by one of two that have it open.
use os_zhenxiang.Prelude.{
  ℕ, ◌≡◌, refl, sym, ap, true, none, some, List, [], ◌∷◌, ok, update, arith, ok-injective, test_bit,
}
use os_zhenxiang.Inode.{Inode, inode_open, inode_find, behind}
use os_zhenxiang.FileTable.{File, get_free_slot_in_global, pcb_fd_install, free_slot}
use os_zhenxiang.Volume.{zeros}
use os_zhenxiang.Volume.Samples.{volume, root_inode, file_inode}
use os_zhenxiang.FileOps.{
  FileSystem, inode_of, put_inode, with_opens, install, deny_writers, open_in, file_open,
  file_close,
}
use os_zhenxiang.FileOps.Deny.{second_writer_refused}
use os_zhenxiang.FileOps.Close.{file_close_admits}

abbrev closed : File
closed = record { fd_pos = 0; fd_flag = 0; fd_inode = none }

abbrev system : FileSystem
system = record { volume = volume; file_table = λ _. closed; fd_table = λ _. none }

abbrev twice : Inode
twice = record file_inode { i_open_cnts = 2 }

abbrev writing : File
writing = record { fd_pos = 0; fd_flag = 1; fd_inode = some 5 }

-- After the file has been opened for writing
abbrev once_open : FileSystem
once_open = record {
  volume = with_opens volume (root_inode ∷ record twice { write_deny = true } ∷ []);
  file_table = update (λ _. closed) 3 writing;
  fd_table = update (λ _. none) 3 (some 3);
}

opened_once : file_open 5 1 system ≡ ok (some 3, once_open)
unfolding file_open open_in inode_open inode_find behind deny_writers put_inode install
    get_free_slot_in_global pcb_fd_install free_slot test_bit
opened_once = refl

own_number :
    (r : Inode × List Inode)
    → inode_open volume.part 5 zeros volume.disk volume.open_inodes ≡ ok r
    → r.0.i_no ≡ 5
unfolding inode_open inode_find behind
own_number r e =
    sym (
      ap (λ (r : Inode × List Inode). r.0.i_no) (ok-injective (twice, root_inode ∷ twice ∷ []) r e))

second_writer_refused_example :
    (fs'' : FileSystem) × (file_open 5 2 once_open ≡ ok (none, fs''))
    × ((s : ℕ)
        → get_free_slot_in_global once_open.file_table ≡ some s
        → (fs''.file_table s).fd_inode ≡ some 5)
unfolding test_bit
second_writer_refused_example =
    second_writer_refused 5 1 2 3 system once_open refl refl own_number opened_once

-- Slot 4 has the file open for reading, and slot 3 for writing.
abbrev shared : FileSystem
shared = record once_open {
  file_table =
      update (update (λ _. closed) 3 writing) 4
        (record { fd_pos = 0; fd_flag = 0; fd_inode = some 5 });
}

file_close_admits_example :
    (fs' : FileSystem) × (file_close 4 shared ≡ ok fs')
    × ((fs'.file_table 4).fd_inode ≡ none)
    × (inode_of 5 fs'.volume.open_inodes ≡ ok file_inode)
unfolding inode_of
file_close_admits_example =
    file_close_admits 4 5 (record twice { write_deny = true }) shared refl refl refl (omega arith)
      (omega arith)
