-- ===== src/System/Sys.antt =====
-- The numbers of the system calls, sdk/include/syscall_numbers.h.
pub mod Distinct
use axiome_toolchain.Base.{ℕ, List, [], ◌∷◌}

abbrev pub print : ℕ
print = 0

abbrev pub yield : ℕ
yield = 1

abbrev pub exit : ℕ
exit = 2

abbrev pub fork : ℕ
fork = 3

abbrev pub getpid : ℕ
getpid = 5

abbrev pub waitpid : ℕ
waitpid = 6

abbrev pub write : ℕ
write = 7

abbrev pub read : ℕ
read = 8

abbrev pub spawn_cmd : ℕ
spawn_cmd = 9

abbrev pub ps : ℕ
ps = 10

abbrev pub open_file : ℕ
open_file = 11

abbrev pub close : ℕ
close = 12

abbrev pub mkdir : ℕ
mkdir = 13

abbrev pub unlink : ℕ
unlink = 14

abbrev pub readdir : ℕ
readdir = 15

abbrev pub chdir : ℕ
chdir = 16

abbrev pub getcwd : ℕ
getcwd = 17

abbrev pub fstat : ℕ
fstat = 18

abbrev pub dup2 : ℕ
dup2 = 19

abbrev pub pipe : ℕ
pipe = 20

abbrev pub mount : ℕ
mount = 21

abbrev pub umount : ℕ
umount = 22

abbrev pub kill : ℕ
kill = 23

abbrev pub sigaction : ℕ
sigaction = 24

abbrev pub sigreturn : ℕ
sigreturn = 25

abbrev pub ipc_create : ℕ
ipc_create = 26

abbrev pub ipc_send : ℕ
ipc_send = 27

abbrev pub ipc_recv : ℕ
ipc_recv = 28

abbrev pub shm_create : ℕ
shm_create = 29

abbrev pub shm_attach : ℕ
shm_attach = 30

abbrev pub mkfifo : ℕ
mkfifo = 31

abbrev pub driver_rescan : ℕ
driver_rescan = 32

abbrev pub socket_create : ℕ
socket_create = 33

abbrev pub socket_bind : ℕ
socket_bind = 34

abbrev pub socket_connect : ℕ
socket_connect = 35

abbrev pub socket_send : ℕ
socket_send = 36

abbrev pub socket_recv : ℕ
socket_recv = 37

abbrev pub socket_close : ℕ
socket_close = 38

abbrev pub socket_listen : ℕ
socket_listen = 39

abbrev pub socket_accept : ℕ
socket_accept = 40

abbrev pub getuid : ℕ
getuid = 41

abbrev pub geteuid : ℕ
geteuid = 42

abbrev pub getgid : ℕ
getgid = 43

abbrev pub getegid : ℕ
getegid = 44

abbrev pub setuid : ℕ
setuid = 45

abbrev pub setgid : ℕ
setgid = 46

abbrev pub getrole : ℕ
getrole = 47

abbrev pub chmod : ℕ
chmod = 48

abbrev pub chown : ℕ
chown = 49

abbrev pub getcap : ℕ
getcap = 50

abbrev pub setcap : ℕ
setcap = 51

abbrev pub getpwnam : ℕ
getpwnam = 52

abbrev pub module_load : ℕ
module_load = 53

abbrev pub module_unload : ℕ
module_unload = 54

abbrev pub mmap : ℕ
mmap = 55

abbrev pub uname : ℕ
uname = 56

abbrev pub reload_users : ℕ
reload_users = 57

abbrev pub execve : ℕ
execve = 58

abbrev pub time : ℕ
time = 59

abbrev pub gettimeofday : ℕ
gettimeofday = 60

abbrev pub nanosleep : ℕ
nanosleep = 61

abbrev pub lseek : ℕ
lseek = 62

abbrev pub pread : ℕ
pread = 63

abbrev pub pwrite : ℕ
pwrite = 64

abbrev pub stat : ℕ
stat = 65

abbrev pub rmdir : ℕ
rmdir = 66

abbrev pub authenticate : ℕ
authenticate = 67

abbrev pub dns_resolve : ℕ
dns_resolve = 68

abbrev pub ping : ℕ
ping = 69

abbrev pub waitpid_nb : ℕ
waitpid_nb = 70

abbrev pub reboot : ℕ
reboot = 71

abbrev pub poweroff : ℕ
poweroff = 72

abbrev pub last : ℕ
last = 73

-- All of them, in the order of the header.
abbrev pub numbers : List ℕ
numbers =
    print ∷ yield ∷ exit ∷ fork ∷ getpid ∷ waitpid ∷ write ∷ read ∷ spawn_cmd ∷ ps ∷ open_file
    ∷ close ∷ mkdir ∷ unlink ∷ readdir ∷ chdir ∷ getcwd ∷ fstat ∷ dup2 ∷ pipe ∷ mount ∷ umount
    ∷ kill ∷ sigaction ∷ sigreturn ∷ ipc_create ∷ ipc_send ∷ ipc_recv ∷ shm_create ∷ shm_attach
    ∷ mkfifo ∷ driver_rescan ∷ socket_create ∷ socket_bind ∷ socket_connect ∷ socket_send
    ∷ socket_recv ∷ socket_close ∷ socket_listen ∷ socket_accept ∷ getuid ∷ geteuid ∷ getgid
    ∷ getegid ∷ setuid ∷ setgid ∷ getrole ∷ chmod ∷ chown ∷ getcap ∷ setcap ∷ getpwnam ∷ module_load
    ∷ module_unload ∷ mmap ∷ uname ∷ reload_users ∷ execve ∷ time ∷ gettimeofday ∷ nanosleep ∷ lseek
    ∷ pread ∷ pwrite ∷ stat ∷ rmdir ∷ authenticate ∷ dns_resolve ∷ ping ∷ waitpid_nb ∷ reboot
    ∷ poweroff ∷ []
