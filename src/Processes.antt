-- ===== src/Processes.antt =====
-- processes_and_threads: open files across fork and exec. What a system call does is what its manual page
-- says.
pub mod Files
pub mod ForkFd
pub mod ExecFd
